-- ===== src/Fs/Dir/Tests.antt =====
-- A directory on a drive behind the disk driver.
use ipo_os.Common.{[], ◌∷◌, ◌==◌, if◌then◌else◌}
use ipo_os.Memory.{zeros, blit}
use ipo_os.Fs.{Fs}
use ipo_os.Fs.Dir.{Name}
use ipo_os.Fs.Format.{dots_block}
use ipo_os.Fs.Format.Root.{made_dir}
use ipo_os.Fs.Tests.{Disk, mounted}

-- The root directory in block 5, with `.` and `..`.
abbrev dots_disk : Disk
dots_disk k =
    if k == 103
    then blit zeros 0 (made_dir 1 5) 0 76
    else if k == 105
    then dots_block 1 1
    else zeros

abbrev with_dots : Fs Disk
with_dots = record mounted { disk = dots_disk }

abbrev a_name : Name
a_name = b'a' ∷ []

abbrev b_name : Name
b_name = b'b' ∷ []
