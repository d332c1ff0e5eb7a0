-- ===== src/Download/Tests.antt =====
-- A split of ten bytes into three ranges, two seconds of a download, and an upload of ten bytes.
use proxy_speedtest.Prelude.{◌≡◌, refl, true, false, List, [], ◌∷◌, length, arith}
use proxy_speedtest.Download.Range.{calc_range, calc_range-Tiles, Tiles}
use proxy_speedtest.Download.Meter.{
  Event, counted, ticked, IsMeasured, measure, flush, peak, new_meter, measure-IsMeasured,
}
use proxy_speedtest.Download.Upload.{body_at, alive, reads, digested, reads-digested}

calc_range-Tiles_example : Tiles 0 10 (calc_range 3 10 []) × (length (calc_range 3 10 []) ≡ 3)
calc_range-Tiles_example = calc_range-Tiles 3 10 [] (omega arith) (omega arith)

abbrev two_seconds : List Event
two_seconds = counted 5 ∷ ticked false true ∷ counted 7 ∷ ticked false true ∷ counted 1 ∷ []

measure-IsMeasured_example : IsMeasured two_seconds (measure two_seconds true new_meter)
measure-IsMeasured_example = measure-IsMeasured two_seconds true

measured :
    measure two_seconds true new_meter
    ≡ peak 7 (record { counter = 0; total = 13; max = 7; sent = 5 ∷ 7 ∷ 1 ∷ [] })
unfolding measure flush
measured = refl

reads-digested_example : reads (alive (4 ∷ 4 ∷ 4 ∷ [])) (body_at 0 10) ≡ (digested 10, body_at 10 0)
reads-digested_example = reads-digested 10 (4 ∷ 4 ∷ 4 ∷ []) (omega arith)
