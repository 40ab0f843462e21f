-- ===== src/Interrupts/Exceptions.antt =====
-- How the kernel ends at an exception (default_interrupt_handler of educrtos/low_level.c).
use mathlib.Core.Path.{subst}
use rtas2021_artifact.Base.{
  ℕ, ◌<◌, ◌^◌, ◌≡◌, ◌≢◌, ◌⊎◌, refl, sym, true, false, List, [], ◌∷◌, ◌++◌, arith, has, ◌==◌,
  Bool-cases, inl, inr, Option, none, some, Run, halt, codes, result, Returns,
}
use rtas2021_artifact.Kernel.{Kernel}
use rtas2021_artifact.Format.{fatal, task_fatal, vfprint, word}
use rtas2021_artifact.Format.Decimal.{IsDecimal}
use rtas2021_artifact.Format.Hexadecimal.{AreHexDigits, hex_value}
use rtas2021_artifact.Format.Plain.{
  IsPlain, vfprint_from-plain, vfprint_from-decimal, vfprint_from-hexadecimal, vfprint_from-last,
  vfprint-begins, vfprint-plain,
}
use rtas2021_artifact.Interrupts.Vectors.{
  case_of, exception_cases, exception_text, default_interrupt_handler,
}
use rtas2021_artifact.Interrupts.Vocabulary.{
  Exception, vector, message, divide_error, debug_trap, nonmaskable, breakpoint_trap, overflow_trap,
  bound_range, undefined_opcode, no_coprocessor, double_fault, coprocessor_overrun, invalid_tss,
  segment_absent, stack_fault, general_protection, page_fault, x87_error, alignment, machine_check,
  simd_error, virtualization, security,
}

-- The text for the vector `num` that has no message of its own: its number, in decimal and in
-- hexadecimal.
pub record IsReport (num : ℕ) (text : List ℕ) : Type 0 where
  pub decimal : List ℕ
  pub hexadecimal : List ℕ
  pub number : IsDecimal 10 num decimal
  pub hexadecimal_digits : AreHexDigits hexadecimal
  pub same_number : hex_value 0 hexadecimal ≡ num
  pub whole :
      text
      ≡ codes "Received unexpected interrupt: "
        ++ (decimal ++ (codes " (" ++ (hexadecimal ++ codes ")\n")))

-- What the machine says at the vector `num`: the message of the exception with that vector, or a
-- report of the number if no exception has it.
abbrev pub Told : ℕ → List ℕ → Type 0
Told num text =
    ((e : Exception) × (vector e ≡ num) × (text ≡ message e))
    ⊎ (((e : Exception) → vector e ≢ num) × IsReport num text)

vfprint-IsReport :
    (junk num : ℕ)
    → num < 2 ^ 31
    → Returns
        (IsReport num)
        (vfprint junk (codes "Received unexpected interrupt: %d (%x)\n") (word num ∷ word num ∷ []))
vfprint-IsReport junk num small = vfprint-begins junk _ _ _ (
    vfprint_from-plain junk (codes "Received unexpected interrupt: ") _ _ _ refl (
      vfprint_from-decimal junk num _ _ _ small λ d number.
        vfprint_from-plain junk (codes " (") _ _ _ refl (
          vfprint_from-hexadecimal junk num _ _ _ (omega arith) λ x digits same.
            vfprint_from-last junk (codes ")\n") _ _ refl (record {
              decimal = d;
              hexadecimal = x;
              number = number;
              hexadecimal_digits = digits;
              same_number = same;
              whole = refl;
            }))))

abbrev values : List (ℕ × List ℕ) → List ℕ
values [] = []
values ((value, text) ∷ cases) = value ∷ values cases

-- The cases that a switch over these exceptions has.
abbrev cases_of : List Exception → List (ℕ × List ℕ)
cases_of [] = []
cases_of (e ∷ es) = (vector e, message e) ∷ cases_of es

abbrev exceptions : List Exception
exceptions =
    divide_error ∷ debug_trap ∷ nonmaskable ∷ breakpoint_trap ∷ overflow_trap ∷ bound_range
    ∷ undefined_opcode ∷ no_coprocessor ∷ double_fault ∷ coprocessor_overrun ∷ invalid_tss
    ∷ segment_absent ∷ stack_fault ∷ general_protection ∷ page_fault ∷ x87_error ∷ alignment
    ∷ machine_check ∷ simd_error ∷ virtualization ∷ security ∷ []

exception_cases-cases_of : exception_cases ≡ cases_of exceptions
unfolding vector message
exception_cases-cases_of = refl

-- A message has no conversion in it.
message-IsPlain : (e : Exception) → IsPlain (message e)
unfolding message
message-IsPlain divide_error = refl
message-IsPlain debug_trap = refl
message-IsPlain nonmaskable = refl
message-IsPlain breakpoint_trap = refl
message-IsPlain overflow_trap = refl
message-IsPlain bound_range = refl
message-IsPlain undefined_opcode = refl
message-IsPlain no_coprocessor = refl
message-IsPlain double_fault = refl
message-IsPlain coprocessor_overrun = refl
message-IsPlain invalid_tss = refl
message-IsPlain segment_absent = refl
message-IsPlain stack_fault = refl
message-IsPlain general_protection = refl
message-IsPlain page_fault = refl
message-IsPlain x87_error = refl
message-IsPlain alignment = refl
message-IsPlain machine_check = refl
message-IsPlain simd_error = refl
message-IsPlain virtualization = refl
message-IsPlain security = refl

-- No exception is left out.
has-vector : (e : Exception) → has (vector e) (values exception_cases) ≡ true
unfolding vector
has-vector divide_error = refl
has-vector debug_trap = refl
has-vector nonmaskable = refl
has-vector breakpoint_trap = refl
has-vector overflow_trap = refl
has-vector bound_range = refl
has-vector undefined_opcode = refl
has-vector no_coprocessor = refl
has-vector double_fault = refl
has-vector coprocessor_overrun = refl
has-vector invalid_tss = refl
has-vector segment_absent = refl
has-vector stack_fault = refl
has-vector general_protection = refl
has-vector page_fault = refl
has-vector x87_error = refl
has-vector alignment = refl
has-vector machine_check = refl
has-vector simd_error = refl
has-vector virtualization = refl
has-vector security = refl

-- What the switch finds: the message of an exception, or nothing, and then the number is not a case.
data Found (num : ℕ) (cases : List (ℕ × List ℕ)) : Option (List ℕ) → Type 0 where
  other : has num (values cases) ≡ false → Found num cases none
  one_of : (e : Exception) → vector e ≡ num → Found num cases (some (message e))

Found-further :
    (num value : ℕ) (text : List ℕ) (cases : List (ℕ × List ℕ)) (o : Option (List ℕ))
    → (num == value) ≡ false
    → Found num cases o
    → Found num ((value, text) ∷ cases) o
Found-further num value text cases o apart (other off) = other (ground (arith, apart, off))
Found-further num value text cases o apart (one_of e at) = one_of e at

case_of-Found :
    (num : ℕ) (es : List Exception) → Found num (cases_of es) (case_of num (cases_of es))
unfolding case_of
case_of-Found num [] = other refl
case_of-Found num (e ∷ es) = elim (Bool-cases (num == vector e)) [
  | inl here ↦ rw here (one_of e (ground arith))
  | inr further ↦
      rw further
        (Found-further num (vector e) (message e) (cases_of es) _ further (case_of-Found num es))
]

handled :
    (junk num : ℕ) (o : Option (List ℕ))
    → num < 2 ^ 31
    → Found num exception_cases o
    → (text : List ℕ) × ((elim o as (λ x. Run Kernel) [
      | some own ↦ task_fatal {A = Kernel} junk own []
      | none ↦
          fatal junk (codes "Received unexpected interrupt: %d (%x)\n") (word num ∷ word num ∷ [])
    ])
        ≡ halt text)
      × Told num text
unfolding task_fatal fatal
handled junk num o small (other off) =
    let (text, same, report) = result (vfprint-IsReport junk num small) in
    let no_case : (e : Exception) → vector e ≢ num = λ e at. absurd (
      ground
        (arith, has-vector e, subst (λ v. has v (values exception_cases) ≡ false) (sym at) off)) in
    (text, rw same refl, inr (no_case, report))
handled junk num o small (one_of e at) =
    (message e, rw (vfprint-plain junk (message e) [] (message-IsPlain e)) refl, inl (e, at, refl))

-- Whatever the vector that is reported to it, `default_interrupt_handler` stops the machine: with the
-- message of the exception if the vector is that of one, and otherwise with a report that gives its
-- number in decimal and in hexadecimal digits that read back as the number.
pub default_interrupt_handler-halt :
    (junk num : ℕ)
    → num < 2 ^ 31
    → (text : List ℕ) × (default_interrupt_handler junk num ≡ halt text) × Told num text
unfolding default_interrupt_handler exception_text
default_interrupt_handler-halt junk num small =
    handled junk num (case_of num exception_cases) small (
      subst (λ cases. Found num cases (case_of num cases)) (sym exception_cases-cases_of)
        (case_of-Found num exceptions))
