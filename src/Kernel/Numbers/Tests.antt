-- ===== src/Kernel/Numbers/Tests.antt =====
-- from_chars at the greatest number, in base 10 and in base 16.
use systems_projects.Base.{◌^◌, ◌-◌, ◌≡◌, length, codes, refl, arith}
use systems_projects.Kernel.Numbers.{from_chars, scan, take_digit, concluded, converted, digit_of}
use systems_projects.Kernel.Numbers.Digits.{digit_value}
use systems_projects.Kernel.Numbers.Laws.{digits, value, answer, from_chars-answer}

from_chars-answer_example :
    from_chars 16 (codes "ffffFFFFffffFFFFz")
    ≡ answer
        (length (digits 16 (codes "ffffFFFFffffFFFFz")))
        (value 16 (digits 16 (codes "ffffFFFFffffFFFFz")) 0)
from_chars-answer_example =
    from_chars-answer 16 (codes "ffffFFFFffffFFFFz") (omega arith) (omega arith) refl

greatest :
    answer
      (length (digits 10 (codes "18446744073709551615;")))
      (value 10 (digits 10 (codes "18446744073709551615;")) 0)
    ≡ converted (2 ^ 64 - 1) 20
unfolding digit_value
greatest = refl

-- A colon is taken for the digit 10 in base 16, and the letter A for the digit 17 in base 18.
colon_read : from_chars 16 (codes ":") ≡ converted 10 1
unfolding from_chars scan take_digit concluded digit_of
colon_read = refl

letter_read : from_chars 18 (codes "A") ≡ converted 17 1
unfolding from_chars scan take_digit concluded digit_of
letter_read = refl
