-- ===== src/Attachments/Tests.antt =====
-- Examples of detail/attachment_helpers.cpp.
use rmw_zenoh.Common.Int.{pos}
use rmw_zenoh.Attachments.{AttachmentData}
use rmw_zenoh.Samples.{gid}

abbrev data_1 : AttachmentData
data_1 = record { sequence_number = pos 1; source_timestamp = pos 9; source_gid = gid }
