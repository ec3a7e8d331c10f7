-- ===== src/Md5/Table.antt =====
-- src/file_manager/md5sum.c: the table of the MD5 rounds.
use ccc_upgrade.Base.{ℕ, List, [], ◌∷◌}

abbrev pub s11 : ℕ
s11 = 7

abbrev pub s12 : ℕ
s12 = 12

abbrev pub s13 : ℕ
s13 = 17

abbrev pub s14 : ℕ
s14 = 22

abbrev pub s21 : ℕ
s21 = 5

abbrev pub s22 : ℕ
s22 = 9

abbrev pub s23 : ℕ
s23 = 14

abbrev pub s24 : ℕ
s24 = 20

abbrev pub s31 : ℕ
s31 = 4

abbrev pub s32 : ℕ
s32 = 11

abbrev pub s33 : ℕ
s33 = 16

abbrev pub s34 : ℕ
s34 = 23

abbrev pub s41 : ℕ
s41 = 6

abbrev pub s42 : ℕ
s42 = 10

abbrev pub s43 : ℕ
s43 = 15

abbrev pub s44 : ℕ
s44 = 21

-- `struct Table`: the constant, the index into the block, and the amount to rotate by.
pub record Row : Type 0 where
  pub sin : ℕ
  pub x : ℕ
  pub rot : ℕ

abbrev row : ℕ → ℕ → ℕ → Row
row sin x rot = record { sin = sin; x = x; rot = rot }

abbrev pub tab : List Row
tab =
    row 0xd76aa478 0 s11
    ∷ row 0xe8c7b756 1 s12
    ∷ row 0x242070db 2 s13
    ∷ row 0xc1bdceee 3 s14
    ∷ row 0xf57c0faf 4 s11
    ∷ row 0x4787c62a 5 s12
    ∷ row 0xa8304613 6 s13
    ∷ row 0xfd469501 7 s14
    ∷ row 0x698098d8 8 s11
    ∷ row 0x8b44f7af 9 s12
    ∷ row 0xffff5bb1 10 s13
    ∷ row 0x895cd7be 11 s14
    ∷ row 0x6b901122 12 s11
    ∷ row 0xfd987193 13 s12
    ∷ row 0xa679438e 14 s13
    ∷ row 0x49b40821 15 s14
    ∷ row 0xf61e2562 1 s21
    ∷ row 0xc040b340 6 s22
    ∷ row 0x265e5a51 11 s23
    ∷ row 0xe9b6c7aa 0 s24
    ∷ row 0xd62f105d 5 s21
    ∷ row 0x2441453 10 s22
    ∷ row 0xd8a1e681 15 s23
    ∷ row 0xe7d3fbc8 4 s24
    ∷ row 0x21e1cde6 9 s21
    ∷ row 0xc33707d6 14 s22
    ∷ row 0xf4d50d87 3 s23
    ∷ row 0x455a14ed 8 s24
    ∷ row 0xa9e3e905 13 s21
    ∷ row 0xfcefa3f8 2 s22
    ∷ row 0x676f02d9 7 s23
    ∷ row 0x8d2a4c8a 12 s24
    ∷ row 0xfffa3942 5 s31
    ∷ row 0x8771f681 8 s32
    ∷ row 0x6d9d6122 11 s33
    ∷ row 0xfde5380c 14 s34
    ∷ row 0xa4beea44 1 s31
    ∷ row 0x4bdecfa9 4 s32
    ∷ row 0xf6bb4b60 7 s33
    ∷ row 0xbebfbc70 10 s34
    ∷ row 0x289b7ec6 13 s31
    ∷ row 0xeaa127fa 0 s32
    ∷ row 0xd4ef3085 3 s33
    ∷ row 0x4881d05 6 s34
    ∷ row 0xd9d4d039 9 s31
    ∷ row 0xe6db99e5 12 s32
    ∷ row 0x1fa27cf8 15 s33
    ∷ row 0xc4ac5665 2 s34
    ∷ row 0xf4292244 0 s41
    ∷ row 0x432aff97 7 s42
    ∷ row 0xab9423a7 14 s43
    ∷ row 0xfc93a039 5 s44
    ∷ row 0x655b59c3 12 s41
    ∷ row 0x8f0ccc92 3 s42
    ∷ row 0xffeff47d 10 s43
    ∷ row 0x85845dd1 1 s44
    ∷ row 0x6fa87e4f 8 s41
    ∷ row 0xfe2ce6e0 15 s42
    ∷ row 0xa3014314 6 s43
    ∷ row 0x4e0811a1 13 s44
    ∷ row 0xf7537e82 4 s41
    ∷ row 0xbd3af235 11 s42
    ∷ row 0x2ad7d2bb 2 s43
    ∷ row 0xeb86d391 9 s44
    ∷ []
