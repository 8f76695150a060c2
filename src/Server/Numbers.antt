-- ===== src/Server/Numbers.antt =====
-- The numbers of connections: what GreateDnid gives, and that it ends.
use Prim.Native.Nat.{bit_or}
use pets_server_linux.Common.{
  ℕ, suc, ◌+◌, ◌*◌, ◌%◌, ◌^◌, ◌≤◌, ◌<◌, ◌≡◌, ◌≢◌, refl, ◌∙◌, none, some, List, [], ◌∷◌, done, arith,
  inl, inr, Option-cases, length, sym, All, take, get_elem?,
}
use pets_server_linux.Common.Maps
use pets_server_linux.Common.Bits.{bit_or-shifted}
use pets_server_linux.Server.{Connection, Draw, dnid_of, greate_dnid}

-- A number has the low 16 bits of the clock above, and the random part below, which is never
-- 0xFFFF.
pub dnid_of_parts : (d : Draw) → dnid_of d ≡ d.time % 2 ^ 16 * 2 ^ 16 + d.rand % 0xffff
unfolding dnid_of
dnid_of_parts d =
    let e : bit_or (d.time * 2 ^ 16) (d.rand % 0xffff) ≡ d.time * 2 ^ 16 + d.rand % 0xffff =
      bit_or-shifted 16 d.time (d.rand % 0xffff) (omega arith) in
    rw e (omega arith)

-- So no connection gets 0xFFFFFFFF, the number of a pet without a connection.
dnid_of-ne : (d : Draw) → (dnid_of d ≢ 0xffff_ffff) × (dnid_of d < 2 ^ 32)
dnid_of-ne d = (λ e. omega (arith, dnid_of_parts d), omega (arith, dnid_of_parts d))

-- What GreateDnid gives: the number of the first draw that no connection has.
pub record FirstFree (ds : List Draw) (cs : List (ℕ × Connection)) (dnid : ℕ) : Type 0 where
  pub index : ℕ
  pub draw : Draw
  pub drawn : get_elem? ds index ≡ some draw
  pub number : dnid ≡ dnid_of draw
  pub free : Maps.find dnid cs ≡ none
  pub taken : All (λ d. Maps.find (dnid_of d) cs ≢ none) (take index ds)

-- When GreateDnid returns a number, it is the number of the first draw whose number no connection
-- has; all draws before it have the number of a connection.
pub greate_dnid-FirstFree :
    (ds : List Draw) (cs : List (ℕ × Connection)) (dnid : ℕ)
    → greate_dnid ds cs ≡ done dnid
    → FirstFree ds cs dnid
unfolding greate_dnid
greate_dnid-FirstFree [] cs dnid e = cc
greate_dnid-FirstFree (d ∷ ds) cs dnid e = elim (Option-cases (Maps.find (dnid_of d) cs)) [
  | inl free ↦
      let same : dnid ≡ dnid_of d = ground arith in
      record { index = 0; draw = d; drawn = refl; number = same; free = rw same free; taken = tt }
  | inr (c, used) ↦
      let r = greate_dnid-FirstFree ds cs dnid (rw (used, greate_dnid) at e) in
      record {
        index = suc r.index;
        draw = r.draw;
        drawn = r.drawn;
        number = r.number;
        free = r.free;
        taken = (λ n. cc, r.taken);
      }
]

length-erase-le : (k : ℕ) (m : List (ℕ × Connection)) → length (Maps.erase k m) ≤ length m
unfolding Maps.erase
length-erase-le k [] = omega arith
length-erase-le k ((j, w) ∷ m) = ground (arith, length-erase-le k m)

length-erase-lt :
    (k : ℕ) (m : List (ℕ × Connection)) (v : Connection)
    → Maps.find k m ≡ some v
    → length (Maps.erase k m) < length m
unfolding Maps.find Maps.erase
length-erase-lt k [] v e = cc
length-erase-lt k ((j, w) ∷ m) v e = ground (arith, length-erase-lt k m v, length-erase-le k m)

-- The numbers of a list of draws are pairwise different.
abbrev pub Avoids : ℕ → List Draw → Type 0
Avoids k [] = Unit {0}
Avoids k (d ∷ ds) = (k ≢ dnid_of d) × Avoids k ds

abbrev Distinct : List Draw → Type 0
Distinct [] = Unit {0}
Distinct (d ∷ ds) = Avoids (dnid_of d) ds × Distinct ds

greate_dnid-erase :
    (k : ℕ) (ds : List Draw) (cs : List (ℕ × Connection))
    → Avoids k ds
    → greate_dnid ds (Maps.erase k cs) ≡ greate_dnid ds cs
unfolding greate_dnid
greate_dnid-erase k [] cs a = refl
greate_dnid-erase k (d ∷ ds) cs a =
    ground (arith, Maps.find-erase k (dnid_of d) cs, greate_dnid-erase k ds cs a.1)

-- With more different draws than connections one of them is free: GreateDnid ends.
pub greate_dnid_ends :
    (ds : List Draw) (cs : List (ℕ × Connection))
    → Distinct ds
    → length cs < length ds
    → (dnid : ℕ) × (greate_dnid ds cs ≡ done dnid)
unfolding greate_dnid
greate_dnid_ends [] cs a h = absurd (omega arith)
greate_dnid_ends (d ∷ ds) cs a h = elim (Option-cases (Maps.find (dnid_of d) cs)) [
  | inl free ↦ (dnid_of d, rw (free, greate_dnid))
  | inr (c, used) ↦
      let (k, e) =
        greate_dnid_ends ds (Maps.erase (dnid_of d) cs) a.1
          (omega (arith, length-erase-lt (dnid_of d) cs c used)) in
      (k, rw (used, greate_dnid) (sym (greate_dnid-erase (dnid_of d) ds cs a.0) ∙ e))
]
