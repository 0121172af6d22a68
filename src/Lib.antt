-- ===== src/Lib.antt =====
-- emmbus2influx reads M-Bus meters, behind a serial port or a TCP gateway, on a schedule, and writes
-- their values to InfluxDB, MQTT and Grafana. This library models the parts that carry its logic and
-- proves what makes them correct.
--
-- The program's parts, and the modules that model them:
--
-- * influxdb-post/influxdb-post.c, the sender. Influx/Buffer is the growing text buffer of
--   `influx_client_t` (`appendToBuf`, `_escaped_append`, `_begin_line`, `influxdb_post_freeBuffer`);
--   Influx/Line is `_format_line2`, which writes line protocol into it; Influx/Queue is the list of
--   rows that could not be posted, with `addToQueue`, `influxdb_deQueue`, `influxdb_post_http_line`,
--   `influxdb_post_http` and `influxdb_post_deInit`. A block is the list of the bytes written to it,
--   beside its size; `Run` is a C function that may return early or store outside its block.
--   Influx/Transport is the protocol of a URL (`getTransportProto`, `changeTransportProto`).
-- * meterDef.h, the data of meters and registers: Meter.
-- * mbusread.cpp. Meter/Values is the scaling of values and what is done with them between two
--   writes (`applyDevider`, `setRegisterValue`, `executeInfluxWriteCalc`); Meter/Connections is the
--   pool of `mbusTCP_open`; Meter/Query is `queryMeter`. Meter/Window puts the calls between two
--   writes in a row and compares them with the list of all values that were read.
--   Meter/Probe is the search for a serial meter (`testSerialpresent`), Meter/RecordType
--   is `mbus_data_record_type`.
-- * cron.cpp, the schedules: Cron. `cron_queryMeters` marks the meters of the schedules that are due,
--   queries them by `queryMeter`, evaluates formulas and runs `executeInfluxWriteCalc`; a pointer to
--   a meter is its place in the list of meters.
--   Initial is `queryMeters`, the first query of all meters; Meter/GlobalFormulas is the formulas of a
--   meter over the registers of all, which they can also assign to; Meter/Places is a change at one
--   place of a list.
-- * emmbus2influx.cpp, the main program: Writer is `influxAppendData` and `grafanaAppendData`, which
--   call the formatter of Influx/Line for a meter of Meter, and the loop that appends the rows of the
--   meters to be written; Writer/Row and Writer/Grafana/Row say what a row has to hold. Writer/Mqtt is the text of `mqttSendData` with its growing string, and
--   Writer/Mqtt/Json the object that the text is meant to be. Loop is `mqttSendData` whole, and what
--   a round of the main loop does with the values that were read, for the three senders.
-- * mqtt_publish.c, the publisher: Mqtt is its connection (`mqtt_pub_connect`) and `mqtt_pub`, which
--   connects again when the broker is gone.
-- * argparse.c and parser.c, the configuration file: Config/File is `readLineFromFile` and the
--   stripping of comments, Config/Buf is `buf_t`, Config/Lexer is `parserGetToken`. A token of more
--   than 255 bytes is a fault, since `buf_addChar` keeps a pointer into a block that `realloc` has
--   given back, and so is a number that is no `int`, which `sscanf` leaves undefined.
-- * meterDef.cpp, what the configuration file defines: Config/Expect is the parserExpect functions,
--   in a monad whose errors end the program; Config/Section is the loops that the sections share;
--   Config/MeterType, Config/Meters and Config/Schedules are the sections (`parseMeterType`,
--   `parseMeter`, and `parseCron` of cron.cpp), Config/Keys their tokens, and Config/Definitions is
--   `readMeterDefinitions`. Initial/Configured joins it with Initial: from the file to the first query.
--
-- Parameters: `double` is a type with the operations of Meter/Floats; libmbus is `Mbus` and `Bus`;
-- muParser is `Formulas`, with the values that the variables have behind an evaluation; the paho client is `MqttLibrary`; `sscanf` of
-- a float is `scan_float`; ccronexpr is `CronLibrary`; the HTTP post is the function `send`; the
-- success of an allocation is `alloc`. Each takes and gives the state of the outside world, where it
-- has one.
--
-- Integers: counters that wrap are written with `% 2 ^ 32`; sizes and lengths are numbers without
-- bound, as the texts are far shorter than a machine word counts. `influxdb_post_deInit` runs on
-- fuel, for which one more than the length of the queue is proved to be enough, and
-- `mqtt_pub_connect` on fuel, for which one more than the length of the URL is; `mqtt_pub_str` has
-- fuel for its growing block. The reading of the configuration file runs on fuel, for which three
-- more than twice the length of the file is proved to be enough. All other loops follow a list or a counter.
--
-- Not modelled: the transport below `send`, logging and output, the copy of libmbus, the interactive
-- formula test.
pub mod Base
pub mod Influx
pub mod Meter
pub mod Cron
pub mod Config
pub mod Writer
pub mod Mqtt
pub mod Initial
pub mod Loop
