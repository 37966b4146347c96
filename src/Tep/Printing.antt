-- ===== src/Tep/Printing.antt =====
-- Which name of a process a handle has after a record was printed.
