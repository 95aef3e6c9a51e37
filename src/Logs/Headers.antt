-- ===== src/Logs/Headers.antt =====
-- Where the header lines of the loggers go.
use Prim.Native.String.{String}
use deltamodels.Base.{ℕ, ◌≡◌, ◌≢◌, ◌∙◌, Option, none, some, List, [], ◌∷◌, ◌++◌}
use deltamodels.Logs.{
  Spdlog, max_size, max_files, router_setup_logger, sdram_setup_logger, flash_setup_logger,
  instruction_setup_logger, data_setup_logger,
}

-- What is observed of spdlog: the file of a logger, that of the default logger (none if it writes to
-- the console), and the lines that a file holds.
pub record Observed (L : Type 0) : Type 0 where
  pub file_of : String → L → Option String
  pub default_file : L → Option String
  pub lines : String → L → List String

-- spdlog's documented behaviour: a new logger writes to the file it is created with, the pattern
-- and the flushing period change no line, and a message goes to the file of its logger, as one line
-- under the pattern `%v`, and to no other.
pub record Documented {L : Type 0} (s : Spdlog L) (o : Observed L) : Type 0 where
  pub created :
      (name file : String) (size files : ℕ) (l : L)
      → o.file_of name l ≡ none
      → o.file_of name (s.rotating_logger_mt name file size files l) ≡ some file
  pub created_default :
      (name file : String) (size files : ℕ) (l : L)
      → o.default_file (s.rotating_logger_mt name file size files l) ≡ o.default_file l
  pub created_lines :
      (name file g : String) (size files : ℕ) (l : L)
      → o.lines g (s.rotating_logger_mt name file size files l) ≡ o.lines g l
  pub default_set :
      (name : String) (l : L) → o.default_file (s.set_default_logger name l) ≡ o.file_of name l
  pub default_lines :
      (name g : String) (l : L) → o.lines g (s.set_default_logger name l) ≡ o.lines g l
  pub pattern_file :
      (name p : String) (l : L) → o.file_of name (s.set_pattern p l) ≡ o.file_of name l
  pub pattern_default : (p : String) (l : L) → o.default_file (s.set_pattern p l) ≡ o.default_file l
  pub pattern_lines : (p g : String) (l : L) → o.lines g (s.set_pattern p l) ≡ o.lines g l
  pub flush_file :
      (name : String) (t : ℕ) (l : L) → o.file_of name (s.flush_every t l) ≡ o.file_of name l
  pub flush_lines : (t : ℕ) (g : String) (l : L) → o.lines g (s.flush_every t l) ≡ o.lines g l
  pub info_hits :
      (text g : String) (l : L)
      → o.default_file l ≡ some g
      → o.lines g (s.info text l) ≡ o.lines g l ++ (text ∷ [])
  pub info_misses :
      (text g : String) (l : L)
      → o.default_file l ≢ some g
      → o.lines g (s.info text l) ≡ o.lines g l
  pub info_of_hits :
      (name text g : String) (l : L)
      → o.file_of name l ≡ some g
      → o.lines g (s.info_of name text l) ≡ o.lines g l ++ (text ∷ [])

module _ {L : Type 0} (s : Spdlog L) (o : Observed L) (doc : Documented s o) (file : String)
    (l : L) where
  -- The flash's header goes to the file of the default logger.
  flash_setup_logger_header :
      (g : String)
      → o.default_file l ≡ some g
      → g ≢ file
      → (o.lines file (flash_setup_logger s file l) ≡ o.lines file l)
        × (o.lines g (flash_setup_logger s file l)
            ≡ o.lines g l ++ ("TimeStamp, Addr, Idx, Value" ∷ []))
  unfolding flash_setup_logger
  flash_setup_logger_header g dflt other =
      let l1 = s.rotating_logger_mt "N25QX_logger" file max_size max_files l in
      let l2 = s.set_pattern "%v" l1 in
      let still : o.default_file l2 ≡ some g =
        doc.pattern_default "%v" l1
        ∙ (doc.created_default "N25QX_logger" file max_size max_files l ∙ dflt) in
      let apart : o.default_file l2 ≢ some file = λ e. other (cc) in
      (
        simp (
          doc.info_misses _ file l2 apart,
          doc.pattern_lines,
          doc.created_lines,
          doc.flush_lines,
        ),
        simp (doc.info_hits _ g l2 still, doc.pattern_lines, doc.created_lines, doc.flush_lines),
      )

  -- Where the names are new and the default logger writes to another file, setting up the logger of
  -- the router, of the SDRAM or of the data tracer adds exactly its header line to the given file,
  -- and that of the instruction tracer adds nothing to it. The flash's adds nothing to it either: its
  -- header line is added to the default logger's file.
  setup_logger_headers :
      (g : String)
      → o.default_file l ≡ some g
      → g ≢ file
      → o.file_of "tlms_logger" l ≡ none
      → o.file_of "SDRAM_logger" l ≡ none
      → o.file_of "or1k_data_logger" l ≡ none
      → (o.lines file (router_setup_logger s file l)
          ≡ o.lines file l
            ++ ("TimeStamp, Target, Initiator, Address, Cmd, Value, Len, Wid, Byt, Data" ∷ []))
        × (o.lines file (sdram_setup_logger s file l)
            ≡ o.lines file l ++ ("TimeStamp, CMD, Address, Value" ∷ []))
        × (o.lines file (data_setup_logger s file l)
            ≡ o.lines file l ++ ("TimeStamp, Address, Data(read or written), operation" ∷ []))
        × (o.lines file (instruction_setup_logger s file l) ≡ o.lines file l)
        × (o.lines file (flash_setup_logger s file l) ≡ o.lines file l)
        × (o.lines g (flash_setup_logger s file l)
            ≡ o.lines g l ++ ("TimeStamp, Addr, Idx, Value" ∷ []))
  unfolding router_setup_logger sdram_setup_logger data_setup_logger instruction_setup_logger
  setup_logger_headers g dflt other router sdram tracer =
      let new = λ (name : String) (h : o.file_of name l ≡ none).
        doc.created name file max_size max_files l h in
      let l1 = s.rotating_logger_mt "tlms_logger" file max_size max_files l in
      let l2 = s.set_pattern "%v" (s.set_default_logger "tlms_logger" l1) in
      let standard : o.default_file l2 ≡ some file =
        doc.pattern_default "%v" (s.set_default_logger "tlms_logger" l1)
        ∙ (doc.default_set "tlms_logger" l1 ∙ new "tlms_logger" router) in
      let m1 = s.rotating_logger_mt "SDRAM_logger" file max_size max_files l in
      let m2 = s.flush_every 1 (s.set_pattern "%v" m1) in
      let sink : o.file_of "SDRAM_logger" m2 ≡ some file =
        doc.flush_file "SDRAM_logger" 1 (s.set_pattern "%v" m1)
        ∙ (doc.pattern_file "SDRAM_logger" "%v" m1 ∙ new "SDRAM_logger" sdram) in
      let d1 = s.rotating_logger_mt "or1k_data_logger" file max_size max_files l in
      let d2 = s.set_pattern "%v" d1 in
      let rows : o.file_of "or1k_data_logger" d2 ≡ some file =
        doc.pattern_file "or1k_data_logger" "%v" d1 ∙ new "or1k_data_logger" tracer in
      (
        simp (
          doc.info_hits _ file l2 standard,
          doc.pattern_lines,
          doc.default_lines,
          doc.created_lines,
          doc.flush_lines,
        ),
        simp (
          doc.info_of_hits _ _ file m2 sink,
          doc.pattern_lines,
          doc.created_lines,
          doc.flush_lines,
        ),
        simp (
          doc.info_of_hits _ _ file d2 rows,
          doc.pattern_lines,
          doc.created_lines,
          doc.flush_lines,
        ),
        simp (doc.pattern_lines, doc.created_lines, doc.flush_lines),
        (flash_setup_logger_header g dflt other).0,
        (flash_setup_logger_header g dflt other).1,
      )
