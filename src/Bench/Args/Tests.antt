-- ===== src/Bench/Args/Tests.antt =====
-- Command lines of bench/run.mjs.
use zopa.Base.{◌≡◌, refl, ◌↔◌, true, some, none, List, [], ◌∷◌}
use zopa.Base.Text.{Text, codes, same, starts_with, has}
use zopa.Bench.Args.{Opts, Parsed, parsed, unknown_flag, parse_args}
use zopa.Bench.Args.Accepts.{FirstUnknown, parse_args-unknown_flag_iff}
use zopa.Bench.Args.CommandLine.{command_line, IsPrintable, parse_args-command_line}

parse : List Text → Parsed
unfolding parse_args same starts_with
parse = parse_args (codes "zopa.wasm")

abbrev smoke : List Text
smoke = codes "--quick" ∷ codes "--engines=zopa,,cedar" ∷ codes "my.wasm" ∷ []

abbrev smoke_opts : Opts
smoke_opts = record {
  wasm_path = codes "my.wasm";
  engines = some (codes "zopa" ∷ codes "cedar" ∷ []);
  quick = true;
  json = none;
}

parse-smoke : parse smoke ≡ parsed smoke_opts
unfolding parse
parse-smoke = refl

parse_typo :
    parse (codes "a.wasm" ∷ codes "--engine=zopa" ∷ []) ≡ unknown_flag (codes "--engine=zopa")
unfolding parse
parse_typo = refl

parse_args-unknown_flag_iff_example :
    (parse_args (codes "zopa.wasm") (codes "a.wasm" ∷ codes "--fast" ∷ [])
      ≡ unknown_flag (codes "--fast"))
    ↔ FirstUnknown (codes "--fast") (codes "a.wasm" ∷ codes "--fast" ∷ [])
parse_args-unknown_flag_iff_example =
    parse_args-unknown_flag_iff (codes "zopa.wasm") (codes "--fast")
      (codes "a.wasm" ∷ codes "--fast" ∷ [])

smoke_opts-IsPrintable : IsPrintable smoke_opts
unfolding starts_with has
smoke_opts-IsPrintable = record { path = refl; names = ((λ e. cc, refl), ((λ e. cc, refl), tt)) }

parse_args-command_line_example :
    parse_args (codes "zopa.wasm") (command_line smoke_opts) ≡ parsed smoke_opts
parse_args-command_line_example =
    parse_args-command_line (codes "zopa.wasm") smoke_opts smoke_opts-IsPrintable
