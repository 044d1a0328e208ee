-- ===== src/Liblog.antt =====
-- src/lib/liblog: the filters and the records of logprint.c, and the tag map of event_tag_map.c. A C
-- string is the list of its bytes before the NUL.
pub mod Strings
pub mod Filters
pub mod LogBuffer
pub mod LogLine
pub mod TagMap
