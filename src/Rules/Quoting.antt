-- ===== src/Rules/Quoting.antt =====
-- What `shell_split` of src/runtime/rules.cpp reads back: words in double quotes, words with a
-- backslash before every byte, and words in single quotes.
use rift_lift.Common.{
  Bool, true, false, not, ◌&&◌, ◌||◌, List, [], ◌∷◌, ◌++◌, ◌≡◌, refl, sym, ap, ◌∙◌, Text, codes,
  ◌==◌, ok, err, if◌then◌else◌, all, arith, append_assoc, append-nil, and_left, and_right, is_empty,
}
use rift_lift.Rules.Strings.{is_space}
use rift_lift.Rules.Shell.{
  Mode, plain, in_single, in_double, Scan, initial, step, scan, finish, shell_split, end_word,
}

pub scan-append : (xs ys : Text) (s : Scan) → scan (xs ++ ys) s ≡ scan ys (scan xs s)
unfolding scan
scan-append [] ys s = refl
scan-append (c ∷ cs) ys s = scan-append cs ys (step s.mode c s)

-- How a caller may write a word.
pub data Style : Type 0 where
  double single backslashed : Style

abbrev pub escape_double : Text → Text
escape_double [] = []
escape_double (c ∷ cs) =
    let rest = escape_double cs in if c == b'"' || c == b'\\' then b'\\' ∷ c ∷ rest else c ∷ rest

abbrev pub escape_all : Text → Text
escape_all [] = []
escape_all (c ∷ cs) = b'\\' ∷ c ∷ escape_all cs

abbrev pub quote : Style → Text → Text
quote double w = b'"' ∷ (escape_double w ++ b'"' ∷ [])
quote single w = b'\'' ∷ (w ++ b'\'' ∷ [])
quote backslashed w = escape_all w

-- Single quotes cannot hold their own mark, and backslashes cannot write the empty word.
abbrev pub fits : Style → Text → Bool
fits double w = true
fits single w = all (λ c. not (c == b'\'')) w
fits backslashed w = not (is_empty w)

-- A command line of quoted words, each behind a space.
abbrev pub command_line : List (Style × Text) → Text
command_line [] = []
command_line ((q, w) ∷ ws) = b' ' ∷ (quote q w ++ command_line ws)

abbrev pub all_fit : List (Style × Text) → Bool
all_fit [] = true
all_fit ((q, w) ∷ ws) = fits q w && all_fit ws

abbrev pub words_of : List (Style × Text) → List Text
words_of [] = []
words_of ((q, w) ∷ ws) = w ∷ words_of ws

abbrev at : Mode → List Text → Text → Bool → Scan
at m ws w b = record { mode = m; words = ws; word = w; in_word = b }

scan_double :
    (cs : Text) (ws : List Text) (w : Text) (rest : Text)
    → scan (escape_double cs ++ b'"' ∷ rest) (at in_double ws w true)
      ≡ scan rest (at plain ws (w ++ cs) true)
unfolding scan step
scan_double [] ws w rest = rw (append-nil w) refl
scan_double (c ∷ cs) ws w rest =
    ground (arith, scan_double cs ws (w ++ c ∷ []) rest, append_assoc w (c ∷ []) cs)

scan_single :
    (cs : Text) (ws : List Text) (w : Text) (b : Bool) (rest : Text)
    → all (λ c. not (c == b'\'')) cs ≡ true
    → scan (cs ++ b'\'' ∷ rest) (at in_single ws w b) ≡ scan rest (at plain ws (w ++ cs) true)
unfolding scan step
scan_single [] ws w b rest h = rw (append-nil w) refl
scan_single (c ∷ cs) ws w b rest h =
    ground (arith, scan_single cs ws (w ++ c ∷ []) b rest, append_assoc w (c ∷ []) cs)

scan_backslashed :
    (cs : Text) (ws : List Text) (w : Text) (rest : Text)
    → scan (escape_all cs ++ rest) (at plain ws w true) ≡ scan rest (at plain ws (w ++ cs) true)
unfolding scan step is_space
scan_backslashed [] ws w rest = rw (append-nil w) refl
scan_backslashed (c ∷ cs) ws w rest =
    scan_backslashed cs ws (w ++ c ∷ []) rest
    ∙ ap (λ v. scan rest (at plain ws v true)) (append_assoc w (c ∷ []) cs)

-- One quoted word, read with no word open.
scan-quote :
    (q : Style) (w : Text) (ws : List Text) (rest : Text)
    → fits q w ≡ true
    → scan (quote q w ++ rest) (at plain ws [] false) ≡ scan rest (at plain ws w true)
unfolding scan step is_space
scan-quote double w ws rest h =
    rw (append_assoc (escape_double w) (b'"' ∷ []) rest) (scan_double w ws [] rest)
scan-quote single w ws rest h =
    rw (append_assoc w (b'\'' ∷ []) rest) (scan_single w ws [] false rest h)
scan-quote backslashed [] ws rest h = cc
scan-quote backslashed (c ∷ cs) ws rest h = scan_backslashed cs ws (c ∷ []) rest

step_space :
    (s : Scan)
    → s.mode ≡ plain
    → (s.in_word ≡ false → s.word ≡ [])
    → step s.mode b' ' s ≡ at plain (end_word s).words [] false
unfolding step is_space
step_space s m e = ground arith

-- The words read so far, the open one among them, are followed by the quoted ones.
scan-command_line :
    (qs : List (Style × Text)) (s : Scan)
    → s.mode ≡ plain
    → (s.in_word ≡ false → s.word ≡ [])
    → all_fit qs ≡ true
    → let t = scan (command_line qs) s in
      (t.mode ≡ plain) × ((end_word t).words ≡ (end_word s).words ++ words_of qs)
unfolding scan
scan-command_line [] s m e h = (m, sym (append-nil (end_word s).words))
scan-command_line ((q, w) ∷ qs) s m e h =
    let ws = (end_word s).words in
    let (m', ih) = scan-command_line qs (at plain ws w true) refl (λ x. cc) (and_right _ _ h) in
    let read : scan (command_line ((q, w) ∷ qs)) s ≡ scan (command_line qs) (at plain ws w true) =
      ap (scan (quote q w ++ command_line qs)) (step_space s m e)
      ∙ scan-quote q w ws (command_line qs) (and_left _ _ h) in
    (
      ap (λ t. t.mode) read ∙ m',
      ap (λ t. (end_word t).words) read ∙ ih ∙ append_assoc ws (w ∷ []) (words_of qs),
    )

-- `shell_split` gives back any list of words that was written with, for each word, double quotes
-- (`"` and `\` behind a backslash), a backslash before every byte (if it is not empty) or single
-- quotes (if it has none), and with spaces between them.
pub shell_split-command_line :
    (qs : List (Style × Text))
    → all_fit qs ≡ true
    → shell_split (command_line qs) ≡ ok (words_of qs)
unfolding shell_split
shell_split-command_line qs h =
    let (m, w) = scan-command_line qs initial refl (λ _. refl) h in
    ap (λ k. finish k (scan (command_line qs) initial)) m ∙ unfold finish in ap ok w

in_single_stays :
    (cs : Text) (s : Scan)
    → s.mode ≡ in_single
    → all (λ c. not (c == b'\'')) cs ≡ true
    → (scan cs s).mode ≡ in_single
unfolding scan step
in_single_stays [] s m h = m
in_single_stays (c ∷ cs) s m h =
    in_single_stays cs (step s.mode c s) (ground arith) (and_right _ _ h)

opens_single : (s : Scan) → s.mode ≡ plain → (step s.mode b'\'' s).mode ≡ in_single
unfolding step is_space
opens_single s m = ground arith

-- A single quote that is opened behind such a command line and never closed is refused.
pub shell_split_unclosed :
    (qs : List (Style × Text)) (cs : Text)
    → all_fit qs ≡ true
    → all (λ c. not (c == b'\'')) cs ≡ true
    → shell_split (command_line qs ++ b'\'' ∷ cs) ≡ err (codes "No closing quotation")
unfolding shell_split
shell_split_unclosed qs cs h k =
    let t = scan (command_line qs) initial in
    let (m, w) = scan-command_line qs initial refl (λ _. refl) h in
    let opened : (scan (b'\'' ∷ cs) t).mode ≡ in_single =
      unfold scan in in_single_stays cs (step t.mode b'\'' t) (opens_single t m) k in
    let whole = ap (λ s. s.mode) (scan-append (command_line qs) (b'\'' ∷ cs) initial) ∙ opened in
    ap (λ m. finish m (scan (command_line qs ++ b'\'' ∷ cs) initial)) whole ∙ unfold finish in refl
