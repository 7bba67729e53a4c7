-- ===== src/Entry/Tests.antt =====
-- Entries of concrete fields.
use nbd_vram.Prelude.{arith}
use nbd_vram.Entry.{ent_make}
use nbd_vram.Entry.Fields.{Unpacked, ent_make-Unpacked}

ent_make-Unpacked_example : Unpacked 12345 4096 0x20_0007 (ent_make 12345 4096 0x20_0007)
ent_make-Unpacked_example = ent_make-Unpacked 12345 4096 0x20_0007 (omega arith) (omega arith)
