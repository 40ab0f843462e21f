-- ===== src/Image/Reserve.antt =====
-- The contexts in reserve (`user_tasks_image.reserve` of educrtos/system_desc.c).
use native.Mathlib.Nat.{mul-le-mul_right}
use rtas2021_artifact.Base.{ℕ, ◌+◌, ◌*◌, ◌≤◌, ◌<◌, ◌^◌, ◌≡◌, ◌≢◌, false, arith, ◌==◌}
use rtas2021_artifact.Store.{null}
use rtas2021_artifact.Image.{Image, reserve_at}

-- The array of ten contexts lies in the address space, and not at the null pointer.
pub record HasReserve (image : Image) : Type 0 where
  pub not_null : image.reserve ≢ null
  pub some_size : 0 < image.context_size
  pub end : image.reserve + 10 * image.context_size ≤ 2 ^ 32

pub reserve_at-not_null : (image : Image) (i : ℕ) → HasReserve image → reserve_at image i ≢ null
reserve_at-not_null image i r = ground (arith, r.not_null)

pub reserve_at-address :
    (image : Image) (i : ℕ) → HasReserve image → i < 10 → reserve_at image i < 2 ^ 32
reserve_at-address image i r h =
    let next : (i + 1) * image.context_size ≤ 10 * image.context_size =
      mul-le-mul_right image.context_size (omega arith) in
    omega (arith, next, r.end, r.some_size)

pub reserve_at-distinct :
    (image : Image) (i j : ℕ)
    → HasReserve image
    → i < j
    → (reserve_at image i == reserve_at image j) ≡ false
reserve_at-distinct image i j r h =
    let next : (i + 1) * image.context_size ≤ j * image.context_size =
      mul-le-mul_right image.context_size (omega arith) in
    let apart : reserve_at image i < reserve_at image j = omega (arith, next, r.some_size) in
    ground (arith, apart)
