-- ===== src/Logs/Tests.antt =====
-- spdlog's behaviour as a model of it has it, the headers there, and the text of a payload.
use Prim.Native.String.{String}
use text.Mathlib.Text.{◌==◌}
use text.Mathlib.TextEquality.{eq_iff}
use text.Mathlib.TextPositions.{eq_refl}
use deltamodels.Base.{
  false, ◌≡◌, ◌≢◌, refl, arith, Option, none, some, List, [], ◌∷◌, ◌++◌, if◌then◌else◌,
}
use deltamodels.Tlm.{Command, Response}
use deltamodels.Or1k.Text.{codes, hex, decimal}
use deltamodels.Logs.{Spdlog, tlm_info}
use deltamodels.Logs.Headers.{Observed, Documented}

-- The file of every logger, that of the default one, and the lines of every file.
record Loggers : Type 0 where
  sinks : String → Option String
  standard : Option String
  held : String → List String

abbrev note : Option String → String → Loggers → Loggers
note none text l = l
note (some f) text l = record l { held = λ g. if g == f then l.held g ++ (text ∷ []) else l.held g }

abbrev simple : Spdlog Loggers
simple = record {
  rotating_logger_mt = λ name file size files l. record l {
    sinks = λ n. if n == name then some file else l.sinks n;
  };
  set_default_logger = λ name l. record l { standard = l.sinks name };
  set_pattern = λ p l. l;
  flush_every = λ t l. l;
  info = λ text l. note l.standard text l;
  info_of = λ name text l. note (l.sinks name) text l;
}

abbrev seen : Observed Loggers
seen = record {
  file_of = λ name l. l.sinks name;
  default_file = λ l. l.standard;
  lines = λ g l. l.held g;
}

note-hits :
    (d : Option String) (text g : String) (l : Loggers)
    → d ≡ some g
    → (note d text l).held g ≡ l.held g ++ (text ∷ [])
note-hits d text g l h = rw (h, eq_refl g) refl

note-misses :
    (d : Option String) (text g : String) (l : Loggers)
    → d ≢ some g
    → (note d text l).held g ≡ l.held g
note-misses none text g l h = refl
note-misses (some f) text g l h = ground (arith, eq_iff g f)

abbrev simple_documented : Documented simple seen
simple_documented = record {
  created = λ name file size files l h. rw (eq_refl name) refl;
  created_default = λ name file size files l. refl;
  created_lines = λ name file g size files l. refl;
  default_set = λ name l. refl;
  default_lines = λ name g l. refl;
  pattern_file = λ name p l. refl;
  pattern_default = λ p l. refl;
  pattern_lines = λ p g l. refl;
  flush_file = λ name t l. refl;
  flush_lines = λ t g l. refl;
  info_hits = λ text g l h. note-hits l.standard text g l h;
  info_misses = λ text g l h. note-misses l.standard text g l h;
  info_of_hits = λ name text g l h. note-hits (l.sinks name) text g l h;
}

abbrev bare : Loggers
bare = record { sinks = λ n. none; standard = some "tlms.csv"; held = λ g. [] }

write_payload_text :
    tlm_info (record {
      command = Command.write;
      address = 0x2040;
      data_ptr = 0xabc;
      data_length = 12;
      streaming_width = 12;
      byte_enable_ptr = none;
      dmi_allowed = false;
      response = Response.incomplete;
    })
    ≡ codes
        "TLM_INFO: \n cmd: write\n raw transaction addr: 0x2040\n data ptr: 0xabc\n data len: 12"
unfolding tlm_info codes hex decimal
write_payload_text = refl
