-- ===== src/File/Examples.antt =====
-- Runs of riscv/kernel/file.c.
use learn_xv.Prelude.{[], ◌∷◌, false}
use learn_xv.File.{File, FileType, Ftable, set_ref}
use learn_xv.File.Holders.{System}

abbrev unused : File
unused = record {
  type_ = FileType.fd_none;
  ref = 0;
  readable = false;
  writable = false;
  pipe = 0;
  ip = 0;
  off = 0;
  major = 0;
}

abbrev empty : Ftable
empty = record { file = λ f. unused }

-- One descriptor refers to entry 0.
abbrev one : System
one = record { table = set_ref 0 1 empty; held = 0 ∷ [] }
