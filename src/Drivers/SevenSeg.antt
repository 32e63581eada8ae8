-- ===== src/Drivers/SevenSeg.antt =====
-- drivers/seven_seg.c: eight digits in four groups.
use cse_os.Base.{
  ℕ, zero, suc, ◌+◌, ◌*◌, ◌/◌, ◌%◌, ◌^◌, Bool, true, false, not, ◌&&◌, ◌||◌, ltb, leb, ◌==◌,
  if◌then◌else◌, update, bit_or,
}
use cse_os.Drivers.{not_used, clear}

-- The registers SEVEN_SEG_EN and SEVEN_SEG, and the groups in use.
pub record SevenSeg : Type 0 where
  pub enable : ℕ
  pub value : ℕ
  pub seg_status : ℕ → ℕ

-- init_seven_seg, with disable_all_seven_seg and clean_seven_seg_value.
unfoldable pub init_seven_seg : SevenSeg → SevenSeg
init_seven_seg s = record {
  enable = 0;
  value = 0;
  seg_status =
      update (update (update (update s.seg_status 0 not_used) 1 not_used) 2 not_used) 3 not_used;
}

unfoldable pub enable_one_seven_seg : ℕ → SevenSeg → SevenSeg
enable_one_seven_seg pos s =
    if ltb pos 8 then record s { enable = bit_or s.enable (2 ^ pos) } else s

abbrev pub enable_all_seven_seg : SevenSeg → SevenSeg
enable_all_seven_seg s = record s { enable = 0xff }

unfoldable pub disable_one_seven_seg : ℕ → SevenSeg → SevenSeg
disable_one_seven_seg pos s = if ltb pos 8 then record s { enable = clear 1 pos s.enable } else s

-- set_seven_seg_digit, which starts from the register of the digits that are on.
unfoldable pub set_seven_seg_digit : ℕ → ℕ → SevenSeg → SevenSeg
set_seven_seg_digit val pos s =
    if ltb val 16 && ltb pos 8
    then record s { value = bit_or (clear 4 (pos * 4) s.enable) (val * 2 ^ (pos * 4)) }
    else s

-- rt_segs_write_byte, with the byte that `v` points to.
unfoldable pub rt_segs_write_byte : ℕ → ℕ → SevenSeg → Bool × SevenSeg
unfolding enable_one_seven_seg
rt_segs_write_byte v i s = if leb 8 i then (false, s) else (
  true,
  enable_one_seven_seg i
      (record s { value = bit_or (clear 4 (i * 4) s.value) (v % 16 * 2 ^ (i * 4)) }),
)

-- rt_seven_seg_write_by_num, with the byte `buf[0]`.
unfoldable pub rt_seven_seg_write_by_num : ℕ → ℕ → SevenSeg → Bool × SevenSeg
unfolding rt_segs_write_byte
rt_seven_seg_write_by_num buf num s =
    if leb 4 num
    then (false, s)
    else if s.seg_status num == not_used
    then (false, s)
    else let (_, s') = rt_segs_write_byte (buf % 16) (num * 2) s in
      let (_, s'') = rt_segs_write_byte (buf / 16 % 16) (num * 2 + 1) s' in (true, s'')

-- The first loop of rt_seven_seg_require: true where no group is in use.
unfoldable pub segs_free : ℕ → ℕ → (ℕ → ℕ) → Bool
segs_free zero i status = true
segs_free (suc left) i status =
    let rest = segs_free left (i + 1) status in if not (status i == not_used) then false else rest

-- The second one: the groups become used and their digits go on.
unfoldable pub segs_occupy : ℕ → ℕ → SevenSeg → SevenSeg
unfolding enable_one_seven_seg
segs_occupy zero i s = s
segs_occupy (suc left) i s = segs_occupy left (i + 1) (
    enable_one_seven_seg (i * 2 + 1)
      (enable_one_seven_seg (i * 2) (record s { seg_status = update s.seg_status i 0 })))

-- rt_seven_seg_require
unfoldable pub rt_seven_seg_require : ℕ → SevenSeg → Bool × SevenSeg
unfolding segs_free segs_occupy
rt_seven_seg_require num s =
    if (num == 0) || ltb 4 num
    then (false, s)
    else if not (segs_free num 0 s.seg_status)
    then (false, s)
    else (true, segs_occupy num 0 s)

-- A group goes off and is free again.
unfoldable pub segs_release_one : ℕ → SevenSeg → SevenSeg
unfolding disable_one_seven_seg
segs_release_one i s =
    let s' =
      disable_one_seven_seg (i * 2 + 1)
        (disable_one_seven_seg (i * 2) (record s { value = clear 8 (i * 2 * 4) s.value })) in
    record s' { seg_status = update s'.seg_status i not_used }

unfoldable pub segs_release : ℕ → ℕ → SevenSeg → SevenSeg
unfolding segs_release_one
segs_release zero i s = s
segs_release (suc left) i s =
    segs_release left (i + 1) (if not (s.seg_status i == not_used) then segs_release_one i s else s)

-- rt_seven_seg_release
unfoldable pub rt_seven_seg_release : ℕ → SevenSeg → Bool × SevenSeg
unfolding segs_release
rt_seven_seg_release num s =
    if (num == 0) || ltb 4 num then (false, s) else (true, segs_release num 0 s)
