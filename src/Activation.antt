-- ===== src/Activation.antt =====
-- The activation part of apexd/apexd.cpp: which APEXes are to be activated.
pub mod Select
pub mod Groups
pub mod Chosen
