-- ===== src/Store/Write.antt =====
-- Reading a written store.
use mathlib.Core.Path.{fun_ext}
use rtas2021_artifact.Base.{◌≡◌, refl, false, arith, ◌==◌}
use rtas2021_artifact.Store.{Ptr, Context, Store, write}

pub write-at : (m : Store) (p : Ptr) (c : Context) → write m p c p ≡ c
unfolding write
write-at m p c = ground arith

pub write-off : (m : Store) (p a : Ptr) (c : Context) → (a == p) ≡ false → write m p c a ≡ m a
unfolding write
write-off m p a c h = rw h refl

-- Of two writes at one address the second counts.
pub write-twice : (m : Store) (p : Ptr) (c d : Context) → write (write m p c) p d ≡ write m p d
unfolding write
write-twice m p c d = fun_ext λ a. ground arith
