-- ===== src/Logger/Lines.antt =====
-- The lines that a `Logger` (src/logger.cpp) writes, and where.
use box_utils.Common.{
  Bytes, codes, ℕ, ◌≡◌, refl, ap, ◌∙◌, true, some, List, [], ◌∷◌, ◌++◌, arith, ◌==◌, if◌then◌else◌,
  Run, ◌>>=◌, ok,
}
use box_utils.Logger.{
  stderr_impl, file_impl, net_impl, Effect, handed, closed, flushed, Error, Logger, error, warn,
  log, set_output_file, impl_putc, destroy,
}

pub data Level : Type 0 where
  error_level warn_level info_level : Level

-- A call of `error`, `warn` or `log`.
abbrev call : Level → Bytes → Logger → Run Error (List Effect)
call error_level = error
call warn_level = warn
call info_level = log

-- The calls one after the other.
pub calls : List (Level × Bytes) → Logger → Run Error (List Effect)
calls [] l = ok []
calls ((level, text) ∷ rest) l = do
  effects ← call level text l
  more ← calls rest l
  ok (effects ++ more)

-- The bytes that an output is handed, in their order; the output is a file.
abbrev pub contents : ℕ → List Effect → Bytes
contents fptr [] = []
contents fptr (handed (file_impl f) text ∷ rest) =
    if f == fptr then text ++ contents fptr rest else contents fptr rest
contents fptr (handed stderr_impl text ∷ rest) = contents fptr rest
contents fptr (handed (net_impl f) text ∷ rest) = contents fptr rest
contents fptr (closed impl ∷ rest) = contents fptr rest
contents fptr (flushed impl ∷ rest) = contents fptr rest

abbrev pub prefix : Level → Bytes
prefix error_level = codes "ERROR: "
prefix warn_level = codes "WARNING: "
prefix info_level = codes "INFO: "

abbrev pub lines : List (Level × Bytes) → Bytes
lines [] = []
lines ((level, text) ∷ rest) = prefix level ++ (text ++ 10 ∷ lines rest)

-- What one call hands to a file.
abbrev parts : ℕ → Level → Bytes → List Effect
parts fptr level text =
    handed (file_impl fptr) (prefix level)
    ∷ handed (file_impl fptr) text
    ∷ handed (file_impl fptr) (10 ∷ [])
    ∷ []

abbrev to_file : ℕ → Logger
to_file fptr = record { impl = some (file_impl fptr) }

call-parts :
    (fptr : ℕ) (level : Level) (text : Bytes)
    → call level text (to_file fptr) ≡ ok (parts fptr level text)
unfolding error warn log impl_putc
call-parts fptr error_level text = refl
call-parts fptr warn_level text = refl
call-parts fptr info_level text = refl

contents-parts :
    (fptr : ℕ) (level : Level) (text : Bytes) (more : List Effect)
    → contents fptr (parts fptr level text ++ more)
      ≡ prefix level ++ (text ++ 10 ∷ contents fptr more)
contents-parts fptr level text more =
    let self : (fptr == fptr) ≡ true = ground arith in rw self refl

file-lines :
    (cs : List (Level × Bytes)) (fptr : ℕ)
    → (effects : List Effect) × (calls cs (to_file fptr) ≡ ok effects)
      × (contents fptr effects ≡ lines cs)
unfolding calls
file-lines [] fptr = ([], refl, refl)
file-lines ((level, text) ∷ cs) fptr =
    let (effects, ran, wrote) = file-lines cs fptr in
    (
      parts fptr level text ++ effects,
      rw (call-parts fptr level text, ran) refl,
      contents-parts fptr level text effects ∙ ap (λ l. prefix level ++ (text ++ 10 ∷ l)) wrote,
    )

-- `set_output` to a file that opens destroys the output of before; after it any sequence of
-- `error`, `warn` and `log` writes to the file one line for each call, in their order: the name of
-- the level, the text and a newline.
pub calls-lines :
    (cs : List (Level × Bytes)) (fptr : ℕ) (old : Logger)
    → (l : Logger) × (effects : List Effect) × (set_output_file (ok fptr) old ≡ ok (l, destroy old))
      × (calls cs l ≡ ok effects)
      × (contents fptr effects ≡ lines cs)
unfolding set_output_file
calls-lines cs fptr old =
    let (effects, ran, wrote) = file-lines cs fptr in (to_file fptr, effects, refl, ran, wrote)
