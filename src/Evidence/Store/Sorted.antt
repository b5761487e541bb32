-- ===== src/Evidence/Store/Sorted.antt =====
-- `sorted` of files by their names, as src/missionforge/evidence_store.py reads a directory.
use mathlib.Core.List.Perm
use mathlib.Core.List.{Perm}
use missionforge.Common.{
  ◌≡◌, refl, true, false, Bool-cases, inl, inr, arith, List, [], ◌∷◌, All, All-map, if◌then◌else◌,
}
use missionforge.Text.{Text, codes, ends_with}
use missionforge.Evidence.Store.Files.{text_lt, insert_file, sorted_files}

abbrev pub File : Type 0
File = Text × Text

pub lt_asym : (s t : Text) → text_lt s t ≡ true → text_lt t s ≡ false
unfolding text_lt
lt_asym s [] h = absurd (cc)
lt_asym [] (d ∷ t) h = refl
lt_asym (c ∷ s) (d ∷ t) h = elim (Bool-cases (text_lt s t)) [
  | inl y ↦ let back = lt_asym s t y in ground (arith, h, y, back)
  | inr n ↦ ground (arith, h, n)
]

-- `s <= t <= u`, said with `<`.
le_trans : (s t u : Text) → text_lt t s ≡ false → text_lt u t ≡ false → text_lt u s ≡ false
unfolding text_lt
le_trans [] t u h k = refl
le_trans (c ∷ s) [] u h k = absurd (cc)
le_trans (c ∷ s) (d ∷ t) [] h k = absurd (cc)
le_trans (c ∷ s) (d ∷ t) (e ∷ u) h k = elim (Bool-cases (text_lt t s)) [
  | inl y ↦ ground (arith, h, k, y)
  | inr n ↦ elim (Bool-cases (text_lt u t)) [
    | inl z ↦ ground (arith, h, k, z)
    | inr m ↦ let both = le_trans s t u n m in ground (arith, h, k, both)
  ]
]

-- The file comes first by its name.
abbrev pub IsBefore : File → File → Type 0
IsBefore f g = text_lt g.0 f.0 ≡ false

-- The files stand in the order of their names.
abbrev pub IsSorted : List File → Type 0
IsSorted [] = Unit {0}
IsSorted (f ∷ fs) = All (IsBefore f) fs × IsSorted fs

-- `root.glob("*.json")`, in the order of the directory
abbrev pub json_files : List File → List File
json_files [] = []
json_files (f ∷ fs) = if ends_with (codes ".json") f.0 then f ∷ json_files fs else json_files fs

insert_file-All :
    (P : File → Type 0) (f : File) (gs : List File) → P f → All P gs → All P (insert_file f gs)
unfolding insert_file
insert_file-All P f [] p h = (p, tt)
insert_file-All P f (g ∷ gs) p h = elim (Bool-cases (text_lt g.0 f.0)) [
  | inl y ↦ rw y (h.0, insert_file-All P f gs p h.1)
  | inr n ↦ rw n (p, h)
]

insert_file-IsSorted : (f : File) (gs : List File) → IsSorted gs → IsSorted (insert_file f gs)
unfolding insert_file
insert_file-IsSorted f [] h = (tt, tt)
insert_file-IsSorted f (g ∷ gs) h = elim (Bool-cases (text_lt g.0 f.0)) [
  | inl y ↦
      rw y
        (insert_file-All (IsBefore g) f gs (lt_asym g.0 f.0 y) h.0, insert_file-IsSorted f gs h.1)
  | inr n ↦
      rw n ((n, All-map (IsBefore g) (IsBefore f) gs (λ u k. le_trans f.0 g.0 u.0 n k) h.0), h)
]

insert_file-perm : (f : File) (gs : List File) → Perm (insert_file f gs) (f ∷ gs)
unfolding insert_file
insert_file-perm f [] = Perm.refl (f ∷ [])
insert_file-perm f (g ∷ gs) = elim (Bool-cases (text_lt g.0 f.0)) [
  | inl y ↦ rw y (Perm.trans (Perm.cons g (insert_file-perm f gs)) (Perm.swap f g gs))
  | inr n ↦ rw n (Perm.refl (f ∷ g ∷ gs))
]

pub sorted_files-IsSorted : (fs : List File) → IsSorted (sorted_files fs)
unfolding sorted_files
sorted_files-IsSorted [] = tt
sorted_files-IsSorted (f ∷ fs) = elim (Bool-cases (ends_with (codes ".json") f.0)) [
  | inl y ↦ rw y (insert_file-IsSorted f (sorted_files fs) (sorted_files-IsSorted fs))
  | inr n ↦ rw n (sorted_files-IsSorted fs)
]

pub sorted_files-perm : (fs : List File) → Perm (sorted_files fs) (json_files fs)
unfolding sorted_files
sorted_files-perm [] = Perm.refl []
sorted_files-perm (f ∷ fs) = elim (Bool-cases (ends_with (codes ".json") f.0)) [
  | inl y ↦
      rw y (Perm.trans (insert_file-perm f (sorted_files fs)) (Perm.cons f (sorted_files-perm fs)))
  | inr n ↦ rw n (sorted_files-perm fs)
]
