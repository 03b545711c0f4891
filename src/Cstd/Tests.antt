-- ===== src/Cstd/Tests.antt =====
-- The helpers at small inputs, and the theorems at inputs that meet their hypotheses.
use pentinum_os.Base.{◌≡◌, false, some, none, refl, ◌==◌, if◌then◌else◌}
use pentinum_os.Cstd.Math.{ceil_to_2power}
use pentinum_os.Cstd.{Bytes, strlen, length_from, strcmp, agree_from}

-- "ab" at 10, and "ac" at 20.
abbrev text : Bytes
text a =
    if a == 10
    then 97
    else if a == 11
    then 98
    else if a == 20
    then 97
    else if a == 21
    then 99
    else 0

strlen_run : strlen 4 text 10 ≡ some 2
unfolding strlen length_from
strlen_run = refl

-- Without a zero byte in reach the loop goes on.
strlen_short : strlen 2 text 10 ≡ none
unfolding strlen length_from
strlen_short = refl

strcmp_run : strcmp text 10 20 2 ≡ false
unfolding strcmp agree_from
strcmp_run = refl

power_run : ceil_to_2power 3000 ≡ 4096
unfolding ceil_to_2power
power_run = refl
