-- ===== src/Events/Ordinals/Order.antt =====
-- internal/events/events.go: the test that `ordinalsWithinSeason` sorts a group by.
use tennis_wiki.Base.{◌≡◌, ◌≢◌, true, false, inl, inr, arith, Bool-cases}
use tennis_wiki.Base.Sort.{Untied}
use tennis_wiki.Base.Text.{equal}
use tennis_wiki.Base.Text.Ordering.{
  text_less_trans, text_less_asym, text_less_connected, equal_congr,
}
use tennis_wiki.Base.Text.Words.{equal_refl, equal_sym}
use tennis_wiki.Events.Ordinals.{Placed, played_before}

pub played_before_irrefl : (x : Placed) → played_before x x ≡ false
unfolding played_before
played_before_irrefl (i, x) = ground (arith, equal_refl x.source_id)

pub played_before_asym : (x y : Placed) → played_before x y ≡ true → played_before y x ≡ false
unfolding played_before
played_before_asym (i, x) (j, y) h =
    ground (arith, h, equal_sym x.source_id y.source_id, text_less_asym x.source_id y.source_id)

pub played_before_trans :
    (x y z : Placed)
    → played_before x y ≡ true
    → played_before y z ≡ true
    → played_before x z ≡ true
unfolding played_before
played_before_trans (i, x) (j, y) (l, z) h k = elim (Bool-cases (equal x.source_id y.source_id)) [
  | inl e ↦ ground (arith, h, k, e, equal_congr x.source_id y.source_id z.source_id e)
  | inr e ↦ elim (Bool-cases (equal y.source_id z.source_id)) [
    | inl f ↦ ground (
      arith,
      h,
      k,
      e,
      f,
      equal_congr y.source_id z.source_id x.source_id f,
      equal_sym x.source_id y.source_id,
      equal_sym x.source_id z.source_id,
    )
    | inr f ↦ elim (Bool-cases (equal x.source_id z.source_id)) [
      | inl g ↦ ground (
        arith,
        h,
        k,
        e,
        f,
        g,
        equal_congr x.source_id z.source_id y.source_id g,
        text_less_asym x.source_id y.source_id,
      )
      | inr g ↦ ground (arith, h, k, e, f, g, text_less_trans x.source_id y.source_id z.source_id)
    ]
  ]
]

pub played_before-Untied : (x y : Placed) → x.1.id ≢ y.1.id → Untied played_before x y
unfolding played_before
played_before-Untied (i, x) (j, y) h = elim (Bool-cases (played_before (i, x) (j, y))) [
  | inl e ↦ inl e
  | inr e ↦ inr (
      ground (
        arith,
        h,
        e,
        equal_sym x.source_id y.source_id,
        text_less_connected x.source_id y.source_id,
      ))
]
