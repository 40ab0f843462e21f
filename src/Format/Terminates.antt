-- ===== src/Format/Terminates.antt =====
-- The loops of educrtos/lib/fprint.c come to an end, whatever the format.
use rtas2021_artifact.Base.{ℕ, ◌^◌, ◌<◌, List, [], ◌∷◌, Run, ok, fault, halt}
use rtas2021_artifact.Format.{Arg, word, wide, text, Converted}

-- The code does not loop for ever; where it ends with a value, this satisfies `Q`.
pub data Ends {i j} {V : Type i} (Q : V → Type j) : Run V → Type (i ⊔ j) where
  faults : Ends Q fault
  halts : {t : List ℕ} → Ends Q (halt t)
  ends : {v : V} → Q v → Ends Q (ok v)

-- The words have 32 bits and the wide ones 64.
abbrev pub Fit : List Arg → Type 0
Fit [] = Unit
Fit (word n ∷ args) = (n < 2 ^ 32) × Fit args
Fit (wide n ∷ args) = (n < 2 ^ 64) × Fit args
Fit (text s ∷ args) = Fit args

-- What is left of the arguments still fits.
abbrev Leaves : Converted → Type 0
Leaves (s, rest, taken) = Fit rest
