-- ===== src/Balance.antt =====
-- The balance equations of synchronous dataflow, compiler/src/analyze.rs: the search for a ratio
-- for each node (Search), its normalization to a repetition vector (Normalize), the rates of the
-- edges with the check of the vector (Equations), and all subgraphs (Program). A division by zero
-- panics; a `while` loop takes fuel. A HashMap is read in the order of insertion. `gcd` and
-- `gcd32` are one function here.
pub mod Gcd
pub mod Search
pub mod Normalize
pub mod Equations
pub mod Program
pub mod Tests
