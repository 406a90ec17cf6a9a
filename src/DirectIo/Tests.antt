-- ===== src/DirectIo/Tests.antt =====
-- Direct I/O on a five-byte file, in transfers of two bytes.
use forge_ann.Prelude.{
  ℕ, ◌+◌, ◌*◌, ◌%◌, ◌^◌, ◌≤◌, ◌<◌, ◌≡◌, refl, true, ◌⊎◌, some, [], ◌∷◌, take, drop, get_or, arith,
}
use forge_ann.Disk.Transfer.{padded}
use forge_ann.Disk.Tests.{two_at_once, two_at_once-Progresses, five}
use forge_ann.DirectIo.{
  DirectIoConfig, window, round_up, effective_alignment, next_power_of_two, power_from,
  read_exact_at, write_all_at,
}
use forge_ann.DirectIo.Cover.{window_covers}
use forge_ann.DirectIo.Refine.{direct-read, direct-write}

abbrev on : DirectIoConfig
on = record { enabled = true; alignment = 5000 }

alignment_test : effective_alignment on ≡ 8192
unfolding effective_alignment next_power_of_two power_from
alignment_test = refl

window_test :
    window on 9000 100 ≡ record { aligned_offset = 8192; prefix = 808; aligned_len = 8192 }
unfolding window round_up effective_alignment next_power_of_two power_from
window_test = refl

room : (n : ℕ) → n ≤ 100 → n + 2 * effective_alignment on ≤ 2 ^ 64
room n h = rw alignment_test (omega arith)

window_covers_example :
    let al = effective_alignment on in
    let w = window on 9000 100 in
    (w.aligned_offset + w.prefix ≡ 9000)
    × (w.prefix + 100 ≤ w.aligned_len)
    × (w.aligned_len < 100 + 2 * al)
    × (w.aligned_offset % al ≡ 0)
    × (w.aligned_len % al ≡ 0)
window_covers_example = window_covers on 9000 100 (room 100 (omega arith))

direct-read_example : read_exact_at two_at_once on five 3 4 ≡ some (padded 4 (drop 3 five))
direct-read_example =
    direct-read two_at_once two_at_once-Progresses on five 3 4 refl (room 4 (omega arith))

direct-write_example :
    let (after, done) = write_all_at two_at_once on five 1 (7 ∷ 8 ∷ []) in
    (done ≡ true)
    × (take 2 (drop 1 after) ≡ (7 ∷ 8 ∷ []))
    × ((i : ℕ) → (i < 1) ⊎ (3 ≤ i) → get_or after i 0 ≡ get_or five i 0)
direct-write_example =
    direct-write two_at_once two_at_once-Progresses on five 1 (7 ∷ 8 ∷ []) refl
      (room 2 (omega arith))
