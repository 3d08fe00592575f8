-- ===== src/Examples/Emissions.antt =====
-- The program of rocpyle, run.
