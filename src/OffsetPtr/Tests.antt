-- ===== src/OffsetPtr/Tests.antt =====
-- Two objects, at 0x100 and 0x200, and a target at 0x300.
use procshared_mem.Base.{◌≡◌, ◌==◌, if◌then◌else◌, arith}
use procshared_mem.OffsetPtr.{null, Offsets}
use procshared_mem.OffsetPtr.Atomic.{load, store, load-store}

-- The object at 0x100 stands for 0x300, the others are null.
abbrev offsets : Offsets
offsets a = if a == 0x100 then 0x200 else 0

-- A null that is stored in an atomic object at 0x100 comes back as 0x100.
load-store_example : load (store offsets 0x100 null) 0x100 ≡ 0x100
load-store_example = load-store offsets 0x100 null (omega arith) (omega arith)
