-- ===== src/Verify/Evidence.antt =====
-- verify/deployguard_verify/evidence.py: the evidence items that the artifacts of a run give. What
-- is read from an artifact by a library (XML and JSON parsing, globbing, hashing, float arithmetic)
-- is an argument or a field; the rules that turn it into a state are modelled.
pub mod Junit
pub mod Coverage
pub mod Sarif
pub mod Collect
pub mod Verdicts
