-- ===== src/Tests/TypesTests.antt =====
-- src/types.rs on the defaults of the command line and on other texts.
use gunyah_test_vmm.Base.{◌≡◌, refl, ok, err, arith}
use gunyah_test_vmm.Errors.{overflows, from_parse, no_digits}
use gunyah_test_vmm.Types.Text.{
  codes, trim, trim_start, trim_end, to_lowercase, strip_prefix, strip_suffix, drop_separators,
}
use gunyah_test_vmm.Types.Radix.{
  digit_value, to_digit, push_digit, scan, from_str_radix, emit, digits,
}
use gunyah_test_vmm.Types.Guest.{
  address_from_str, parse_number, find_strip, address_fmt, size_fmt, size_unit,
}
use gunyah_test_vmm.Types.RoundTrip.{address_from_str-address_fmt}
use gunyah_test_vmm.Types.Sizes.{IsReadBack, size_fmt-IsReadBack}

default_size : parse_number (codes "100MB") ≡ ok 104857600
unfolding parse_number find_strip strip_prefix strip_suffix to_lowercase trim trim_start trim_end
    drop_separators from_str_radix scan to_digit push_digit digit_value
default_size = refl

spaced_hex : parse_number (codes " 0x8000_0000 ") ≡ ok 0x8000_0000
unfolding parse_number find_strip strip_prefix strip_suffix to_lowercase trim trim_start trim_end
    drop_separators from_str_radix scan to_digit push_digit digit_value
spaced_hex = refl

too_large : parse_number (codes "17179869184G") ≡ err (overflows 17179869184 1073741824)
unfolding parse_number find_strip strip_prefix strip_suffix to_lowercase trim trim_start trim_end
    drop_separators from_str_radix scan to_digit push_digit digit_value
too_large = refl

only_a_unit : parse_number (codes "MiB") ≡ err (from_parse no_digits)
unfolding parse_number find_strip strip_prefix strip_suffix to_lowercase trim trim_start trim_end
    drop_separators from_str_radix scan to_digit push_digit digit_value
only_a_unit = refl

size_fmt_100mb : size_fmt (record { value = 104857600 }) ≡ ok (codes "100MiB")
unfolding size_fmt size_unit digits emit
size_fmt_100mb = refl

address_fmt_serial : address_fmt (record { value = 0x3f800 }) ≡ codes "0x03f800"
unfolding address_fmt digits emit
address_fmt_serial = refl

address_from_str-address_fmt_example :
    address_from_str (address_fmt (record { value = 0x3f800 })) ≡ ok (record { value = 0x3f800 })
address_from_str-address_fmt_example =
    address_from_str-address_fmt (record { value = 0x3f800 }) (omega arith)

size_fmt-IsReadBack_example :
    IsReadBack (record { value = 104857600 }) (size_fmt (record { value = 104857600 }))
size_fmt-IsReadBack_example = size_fmt-IsReadBack (record { value = 104857600 }) (omega arith)
