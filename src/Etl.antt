-- ===== src/Etl.antt =====
-- The ETL: ETL/spark.
pub mod Scanner
pub mod Transform
pub mod Site
