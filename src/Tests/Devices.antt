-- ===== src/Tests/Devices.antt =====
-- Examples of the theorems on the terminal and on segment descriptors.
use rtas2021_artifact.Base.{◌+◌, ◌*◌, ◌%◌, ◌^◌, ◌<◌, [], ◌∷◌, ◌≡◌, arith, Returns, List, length, ℕ}
use rtas2021_artifact.Segment.{
  create_code_descriptor, create_descriptor, segment_accessed, segment_size, segment_normal,
  segment_limit, segment_granularity, segment_base, segment_privilege, segment_permissions,
  segment_present, last_offset,
}
use rtas2021_artifact.Segment.Fields.{create_descriptor_fields, create_code_descriptor_fields}
use rtas2021_artifact.Terminal.{terminal_putchar, terminal_write, terminal_write_uint32}
use rtas2021_artifact.Terminal.Bounds.{
  IsOnScreen, Printed, terminal_putchar-Printed, terminal_write-IsOnScreen,
}
use rtas2021_artifact.Terminal.Hex.{AreHexDigits, hex_value, terminal_write_uint32-value}
use rtas2021_artifact.Tests.Sample.{screen}

screen-IsOnScreen : IsOnScreen screen
screen-IsOnScreen = record { row = omega arith; column = omega arith }

terminal_putchar-Printed_example : Returns (Printed b'a' screen) (terminal_putchar b'a' screen)
terminal_putchar-Printed_example = terminal_putchar-Printed b'a' screen screen-IsOnScreen

terminal_write-IsOnScreen_example : Returns IsOnScreen (terminal_write (b'a' ∷ b'\n' ∷ []) screen)
terminal_write-IsOnScreen_example =
    terminal_write-IsOnScreen (b'a' ∷ b'\n' ∷ []) screen screen-IsOnScreen

terminal_write_uint32-value_example :
    (text : List ℕ) × (terminal_write_uint32 48879 screen ≡ terminal_write text screen)
    × (length text ≡ 8)
    × AreHexDigits text
    × (hex_value 0 text ≡ 48879)
terminal_write_uint32-value_example = terminal_write_uint32-value 48879 screen (omega arith)

create_code_descriptor_fields_example :
    let d = create_code_descriptor 4096 8192 3 0 1 0 1 1 in
    (segment_base d ≡ 4096)
    × (segment_privilege d ≡ 3)
    × (segment_permissions d ≡ 4 + 1)
    × (segment_present d ≡ 1)
    × (last_offset d ≡ 8192 % 2 ^ 20 * 4096 + 4095)
create_code_descriptor_fields_example =
    create_code_descriptor_fields 4096 8192 3 1 (omega arith) (omega arith) (omega arith)

create_descriptor_fields_example :
    let d = create_descriptor 4096 8192 1 3 1 5 0 1 1 in
    (segment_base d ≡ 4096)
    × (segment_limit d ≡ 8192 % 2 ^ 20)
    × (segment_accessed d ≡ 0)
    × (segment_permissions d ≡ 5)
    × (segment_normal d ≡ 1)
    × (segment_privilege d ≡ 3)
    × (segment_present d ≡ 1)
    × (segment_size d ≡ 1)
    × (segment_granularity d ≡ 1)
    × (d < 2 ^ 64)
create_descriptor_fields_example =
    create_descriptor_fields 4096 8192 1 3 1 5 0 1 1 (omega arith) (omega arith) (omega arith)
      (omega arith) (omega arith) (omega arith) (omega arith) (omega arith)
