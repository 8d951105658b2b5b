-- ===== src/Bitstream/Av1/Picture.antt =====
-- How the header is read.
use proxmoxwhatsapp.Bitstream.Av1.Sequence.{Sequence}
