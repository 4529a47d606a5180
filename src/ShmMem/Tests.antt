-- ===== src/ShmMem/Tests.antt =====
-- A process with nothing open, on pages of 4096 bytes; the system answers with descriptor 3 and the
-- address 65536.
use procshared_mem.Base.{refl, true, false, arith}
use procshared_mem.ShmMem.{ok, fails, Os, empty_guard, destroy, create}
use procshared_mem.ShmMem.Owned.{Same, destroy-create}

abbrev nothing : Os
nothing = record { is_open = λ f. false; is_mapped = λ a. false }

destroy-create_example :
    let r = create nothing empty_guard false true 4096 5000 (ok 3) (fails 28) (ok 65536) in
    Same nothing (destroy r.0 r.1)
destroy-create_example =
    destroy-create nothing false true 4096 5000 (ok 3) (fails 28) (ok 65536) (λ f e. refl)
      (λ a e. (ground (arith, e), refl))
