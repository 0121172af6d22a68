-- ===== src/Influx.antt =====
-- The InfluxDB sender, influxdb-post/influxdb-post.c and influxdb-post.h.
pub mod Buffer
pub mod Line
pub mod Queue
pub mod Transport
mod Examples
