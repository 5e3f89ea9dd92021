-- ===== src/Sirsetup/Frame.antt =====
-- HashData, the checksum of the packets on the line.
