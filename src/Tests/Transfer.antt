-- ===== src/Tests/Transfer.antt =====
-- Runs of the transfer snapshot.
use ssh_mountmate.Base.{◌≤◌, ◌≡◌, refl, true, not, [], ◌∷◌, arith}
use ssh_mountmate.Text.{
  codes, is_empty, text_eq, ends_with, trim_by, trim_start_by, trim_end_by, replace_char,
}
use ssh_mountmate.Transfer.{
  build_transfer_snapshot, normalized_transfer_name, names_agree, transfer_matches, fresh,
}
use ssh_mountmate.Transfer.Names.{transfer_matches_lem}
use ssh_mountmate.Transfer.Claim.{Claims, claim-Claims}
use ssh_mountmate.Transfer.Totals.{transferred-le-queued}
use ssh_mountmate.Tests.Values.{whole_percent, report, photo, running, busy}

same_file : transfer_matches (codes "docs\\report.txt") (codes "/report.txt/") ≡ true
unfolding transfer_matches names_agree normalized_transfer_name text_eq ends_with trim_by
    trim_start_by trim_end_by replace_char
same_file = refl

transfer_matches_lem_example :
    (transfer_matches (codes "docs/report.txt") (codes "report.txt")
      ≡ transfer_matches (codes "report.txt") (codes "docs/report.txt"))
    × (transfer_matches (codes "docs/report.txt") (codes "docs/report.txt")
        ≡ not (is_empty (normalized_transfer_name (codes "docs/report.txt"))))
transfer_matches_lem_example = transfer_matches_lem (codes "docs/report.txt") (codes "report.txt")

claim-Claims_example : Claims report.name (fresh running ∷ [])
claim-Claims_example = claim-Claims report.name (fresh running ∷ [])

transferred-le-queued_example :
    let s = build_transfer_snapshot (report ∷ photo ∷ []) busy (running ∷ []) in
    s.transferred_bytes ≤ s.queued_bytes
transferred-le-queued_example =
    transferred-le-queued (report ∷ photo ∷ []) busy (running ∷ []) (omega arith, (omega arith, tt))
      (omega arith, tt)
