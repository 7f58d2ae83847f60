-- ===== src/Inpx.antt =====
-- libs/Inpx/InpxParser.cpp: the segments of an INPX catalog.
pub mod Text
pub mod Number
pub mod Record
pub mod Segment
pub mod Archive
