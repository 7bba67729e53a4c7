-- ===== src/Batch/Tests.antt =====
-- Requests as they come in, on a disk of 1 MiB.
use nbd_vram.Prelude.{◌+◌, ◌-◌, ◌^◌, ◌≡◌, arith, true, not, leb, List, [], ◌∷◌}
use nbd_vram.Store.{cmd_read, cmd_write}
use nbd_vram.Request.{oob, windows}
use nbd_vram.Request.Bounds.{oob_lem}
use nbd_vram.Request.Windows.{Tiles, windows-Tiles}
use nbd_vram.Batch.{Header, Incoming, header, idle, assemble, request_magic, cmd_read, cmd_write}
use nbd_vram.Batch.Gathered.{Assembled, assemble_lem}

-- an offset near 2^64 does not pass
oob_lem_example : oob (2 ^ 20) (2 ^ 64 - 4096) 8192 ≡ not (leb ((2 ^ 64 - 4096) + 8192) (2 ^ 20))
oob_lem_example = oob_lem (2 ^ 20) (2 ^ 64 - 4096) 8192

windows-Tiles_example : Tiles 1000 600000 (windows 600000 1000 600000)
windows-Tiles_example = windows-Tiles 600000 1000 600000 (omega arith) (omega arith) (omega arith)

abbrev read_two : Header
read_two = record {
  magic = request_magic;
  cmd = cmd_read;
  handle = 7;
  from = 8192;
  len = 8192;
  payload = true;
}

abbrev write_past : Header
write_past = record {
  magic = request_magic;
  cmd = cmd_write;
  handle = 8;
  from = 2 ^ 20;
  len = 4096;
  payload = true;
}

abbrev ragged : Header
ragged = record {
  magic = request_magic;
  cmd = cmd_write;
  handle = 9;
  from = 100;
  len = 50;
  payload = true;
}

abbrev queue : List Incoming
queue = header write_past ∷ header read_two ∷ header ragged ∷ idle ∷ []

assemble_lem_example :
    Assembled (2 ^ 20) 32 (header read_two ∷ queue) (assemble (2 ^ 20) 32 read_two queue)
assemble_lem_example = assemble_lem (2 ^ 20) 32 read_two queue (omega arith)
