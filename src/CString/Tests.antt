-- ===== src/CString/Tests.antt =====
-- Runs of the functions of string.c, and their theorems at concrete memories.
use ipo_os.Common.{◌≡◌, refl, some}
use ipo_os.Memory.{Mem, get8, put8, zeros}
use ipo_os.CString.{strlen}

abbrev word : Mem
word = put8 (put8 zeros 0 b'h') 1 b'i'

word_length : strlen 10 word 0 ≡ some 2
unfolding strlen get8 put8
word_length = refl
