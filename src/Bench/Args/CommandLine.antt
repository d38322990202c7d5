-- ===== src/Bench/Args/CommandLine.antt =====
-- Any options can be written as a command line, and are read back from it.
use zopa.Base.{◌≡◌, refl, ◌∙◌, ap, ◌≢◌}
use zopa.Base.{Bool, true, false, Option, none, some, List, [], ◌∷◌, ◌++◌, arith}
use zopa.Base.Lists.{All}
use zopa.Base.Text.{Text, codes, same, starts_with, has}
use zopa.Bench.Args.{
  Opts, quick_flag, engines_flag, json_flag, split, non_empty, parse_arg, parsed, parse_loop,
  parse_args, defaults,
}

-- `names.join(',')`
pub join : List Text → Text
join [] = []
join (w ∷ []) = w
join (w ∷ v ∷ ws) = w ++ (b',' ∷ join (v ∷ ws))

-- What an engine's name must be to survive the list: not empty, with no comma.
abbrev pub IsName : Text → Type 0
IsName w = (w ≢ []) × (has b',' w ≡ false)

split-no_sep : (w : Text) → has b',' w ≡ false → split b',' w ≡ w ∷ []
unfolding split has
split-no_sep [] h = refl
split-no_sep (c ∷ w) h = ground (arith, split-no_sep w)

split-append : (w s : Text) → has b',' w ≡ false → split b',' (w ++ (b',' ∷ s)) ≡ w ∷ split b',' s
unfolding split has
split-append [] s h = refl
split-append (c ∷ w) s h = ground (arith, split-append w s)

non_empty-name : (w : Text) (ws : List Text) → w ≢ [] → non_empty (w ∷ ws) ≡ w ∷ non_empty ws
unfolding non_empty
non_empty-name [] ws h = absurd (h refl)
non_empty-name (c ∷ w) ws h = refl

names-join : (ws : List Text) → All IsName ws → non_empty (split b',' (join ws)) ≡ ws
unfolding join
names-join [] _ = unfold split non_empty in refl
names-join (w ∷ []) ((n, h), _) =
    ap non_empty (split-no_sep w h) ∙ non_empty-name w [] n ∙ unfold non_empty in refl
names-join (w ∷ v ∷ ws) ((n, h), hs) =
    ap non_empty (split-append w (join (v ∷ ws)) h)
    ∙ non_empty-name w (split b',' (join (v ∷ ws))) n
    ∙ ap (λ xs. w ∷ xs) (names-join (v ∷ ws) hs)

parse_arg-quick : (o : Opts) → parse_arg quick_flag o ≡ some (record o { quick = true })
unfolding parse_arg same
parse_arg-quick o = refl

parse_arg-engines :
    (t : Text) (o : Opts)
    → parse_arg (engines_flag ++ t) o
      ≡ some (record o { engines = some (non_empty (split b',' t)) })
unfolding parse_arg same starts_with
parse_arg-engines t o = refl

parse_arg-json :
    (t : Text) (o : Opts) → parse_arg (json_flag ++ t) o ≡ some (record o { json = some t })
unfolding parse_arg same starts_with
parse_arg-json t o = refl

-- A text that does not begin with two dashes is none of the flags.
parse_arg-path :
    (w : Text) (o : Opts)
    → starts_with (codes "--") w ≡ false
    → parse_arg w o ≡ some (record o { wasm_path = w })
unfolding parse_arg same starts_with
parse_arg-path [] o h = refl
parse_arg-path (c ∷ []) o h = ground arith
parse_arg-path (c ∷ d ∷ w) o h = ground arith

abbrev quick_args : Bool → List Text → List Text
quick_args true rest = quick_flag ∷ rest
quick_args false rest = rest

abbrev engines_args : Option (List Text) → List Text → List Text
engines_args none rest = rest
engines_args (some ws) rest = (engines_flag ++ join ws) ∷ rest

abbrev json_args : Option Text → List Text → List Text
json_args none rest = rest
json_args (some t) rest = (json_flag ++ t) ∷ rest

-- The options as arguments.
pub command_line : Opts → List Text
command_line o = quick_args o.quick (engines_args o.engines (json_args o.json (o.wasm_path ∷ [])))

abbrev AreNames : Option (List Text) → Type 0
AreNames none = Unit
AreNames (some ws) = All IsName ws

-- What the command line must avoid: a path with two dashes in front, and an engine's name that is
-- empty or holds a comma.
pub record IsPrintable (o : Opts) : Type 0 where
  pub path : starts_with (codes "--") o.wasm_path ≡ false
  pub names : AreNames o.engines

loop_path :
    (w : Text) (o : Opts)
    → starts_with (codes "--") w ≡ false
    → parse_loop (w ∷ []) o ≡ parsed (record o { wasm_path = w })
unfolding parse_loop
loop_path w o h = rw (parse_arg-path w o h, parse_loop)

abbrev opts : Text → Option (List Text) → Bool → Option Text → Opts
opts w es q j = record { wasm_path = w; engines = es; quick = q; json = j }

module _ (wasm w : Text) (h : starts_with (codes "--") w ≡ false) where
  loop_json :
      (es : Option (List Text)) (q : Bool) (j : Option Text)
      → parse_loop (json_args j (w ∷ [])) (opts wasm es q none) ≡ parsed (opts w es q j)
  unfolding parse_loop
  loop_json es q none = loop_path w (opts wasm es q none) h
  loop_json es q (some t) =
      rw (parse_arg-json, parse_loop) (loop_path w (opts wasm es q (some t)) h)

  loop_engines :
      (es : Option (List Text)) (q : Bool) (j : Option Text)
      → AreNames es
      → parse_loop (engines_args es (json_args j (w ∷ []))) (opts wasm none q none)
        ≡ parsed (opts w es q j)
  unfolding parse_loop
  loop_engines none q j _ = loop_json none q j
  loop_engines (some ws) q j names =
      rw (parse_arg-engines, parse_loop, names-join ws names) (loop_json (some ws) q j)

  loop_quick :
      (es : Option (List Text)) (q : Bool) (j : Option Text)
      → AreNames es
      → parse_loop (quick_args q (engines_args es (json_args j (w ∷ [])))) (defaults wasm)
        ≡ parsed (opts w es q j)
  unfolding parse_loop
  loop_quick es false j names = loop_engines es false j names
  loop_quick es true j names = rw (parse_arg-quick, parse_loop) (loop_engines es true j names)

-- `parseArgs` reads back the command line of any options whose path does not begin with two dashes
-- and whose engines' names are not empty and hold no comma.
pub parse_args-command_line :
    (wasm : Text) (o : Opts) → IsPrintable o → parse_args wasm (command_line o) ≡ parsed o
unfolding parse_args command_line
parse_args-command_line wasm o p =
    loop_quick wasm o.wasm_path p.path o.engines o.quick o.json p.names
