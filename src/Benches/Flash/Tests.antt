-- ===== src/Benches/Flash/Tests.antt =====
-- The program of models/memories/tests/test_flash.cpp with its address and dummy cycles, on bytes 4 to
-- 6 of models/memories/tests/image_for_storage.img.
use deltamodels.Base.{◌≡◌, List, ℕ, [], ◌∷◌, arith, done, default_handler}
use deltamodels.Flash.{Flash}
use deltamodels.Benches.Flash.{sc_main}
use deltamodels.Benches.Flash.Passing.{sc_main_reads_back}

abbrev image : List ℕ
image = 0x6d ∷ 0x61 ∷ 0x63 ∷ []

sc_main_reads_back_example :
    (f : Flash) × (sc_main default_handler 11 1 2 3 0x123456 image 3 ≡ done (f, []))
sc_main_reads_back_example =
    sc_main_reads_back default_handler 11 1 2 3 0x123456 image (omega arith) (omega arith)
      (omega arith) (omega arith) (omega arith, (omega arith, (omega arith, tt)))
