-- ===== src/Autocomplete/Queries/Conditions.antt =====
-- The conversion from a conjunction of predicates to a disjunction of queries, read as conditions
-- on an artifact.
use mallard.Common.{◌≡◌, refl, Text, Option, none, some, arith}
use mallard.Types.{PlatformType, RangeDate, ImageQuery}
use mallard.Autocomplete.Queries.{Lodash, or_else, merge_range}

abbrev pub Holds : {A : Type 0} → (A → Type 0) → Option A → Type 0
Holds P none = Unit
Holds P (some a) = P a

-- No two conditions on one property.
abbrev pub Apart : {A : Type 0} → Option A → Option A → Type 0
Apart none y = Unit
Apart (some x) none = Unit
Apart (some x) (some y) = ⊥

abbrev pub min_of : Option RangeDate → Option Text
min_of none = none
min_of (some r) = r.min_value

abbrev pub max_of : Option RangeDate → Option Text
max_of none = none
max_of (some r) = r.max_value

-- What the properties of a query ask of one artifact; how the backend answers them is left open.
pub record Conditions : Type 1 where
  pub named : Text → Type 0
  pub noted : Text → Type 0
  pub shot_with : Text → Type 0
  pub in_session : Text → Type 0
  pub from : Text → Type 0
  pub until : Text → Type 0
  pub on_platform : PlatformType → Type 0

pub record Satisfies (c : Conditions) (q : ImageQuery) : Type 0 where
  pub name : Holds c.named q.name
  pub notes : Holds c.noted q.notes
  pub camera : Holds c.shot_with q.camera
  pub session : Holds c.in_session q.session
  pub min_date : Holds c.from (min_of q.capture_dates)
  pub max_date : Holds c.until (max_of q.capture_dates)
  pub platform_type : Holds c.on_platform q.platform_type

pub record ApartQueries (l r : ImageQuery) : Type 0 where
  pub name : Apart l.name r.name
  pub notes : Apart l.notes r.notes
  pub camera : Apart l.camera r.camera
  pub session : Apart l.session r.session
  pub min_date : Apart (min_of l.capture_dates) (min_of r.capture_dates)
  pub max_date : Apart (max_of l.capture_dates) (max_of r.capture_dates)
  pub platform_type : Apart l.platform_type r.platform_type

min_of-merge_range :
    (l r : Option RangeDate) → min_of (merge_range l r) ≡ or_else (min_of r) (min_of l)
min_of-merge_range none none = refl
min_of-merge_range none (some r) = ground arith
min_of-merge_range (some l) none = refl
min_of-merge_range (some l) (some r) = refl

max_of-merge_range :
    (l r : Option RangeDate) → max_of (merge_range l r) ≡ or_else (max_of r) (max_of l)
max_of-merge_range none none = refl
max_of-merge_range none (some r) = ground arith
max_of-merge_range (some l) none = refl
max_of-merge_range (some l) (some r) = refl

module _ {A : Type 0} where
  both_hold :
      (P : A → Type 0) (l r o : Option A) → o ≡ or_else r l → Holds P l → Holds P r → Holds P o
  both_hold P l none o e h k = rw e h
  both_hold P l (some x) o e h k = rw e k

  each_holds :
      (P : A → Type 0) (l r o : Option A)
      → o ≡ or_else r l
      → Apart l r
      → Holds P o
      → Holds P l × Holds P r
  each_holds P l none o e a h = (rw e at h, tt)
  each_holds P none (some y) o e a h = (tt, rw e at h)
  each_holds P (some x) (some y) o e a h = elim a [ ]

  apart_or_else : (l r q o : Option A) → o ≡ or_else r l → Apart l q → Apart r q → Apart o q
  apart_or_else l none q o e h k = rw e h
  apart_or_else l (some x) q o e h k = rw e k

module _ (lodash : Lodash) (l r : ImageQuery) where
  open lodash use {
    merge, merge_name, merge_notes, merge_camera, merge_session, merge_capture_dates,
    merge_platform_type,
  }

  merge_min :
      min_of (merge l r).capture_dates ≡ or_else (min_of r.capture_dates) (min_of l.capture_dates)
  merge_min = rw merge_capture_dates (min_of-merge_range l.capture_dates r.capture_dates)

  merge_max :
      max_of (merge l r).capture_dates ≡ or_else (max_of r.capture_dates) (max_of l.capture_dates)
  merge_max = rw merge_capture_dates (max_of-merge_range l.capture_dates r.capture_dates)

  pub Satisfies-merge : (c : Conditions) → Satisfies c l → Satisfies c r → Satisfies c (merge l r)
  Satisfies-merge c h k = record {
    name = both_hold c.named _ _ _ (merge_name l r) h.name k.name;
    notes = both_hold c.noted _ _ _ (merge_notes l r) h.notes k.notes;
    camera = both_hold c.shot_with _ _ _ (merge_camera l r) h.camera k.camera;
    session = both_hold c.in_session _ _ _ (merge_session l r) h.session k.session;
    min_date = both_hold c.from _ _ _ merge_min h.min_date k.min_date;
    max_date = both_hold c.until _ _ _ merge_max h.max_date k.max_date;
    platform_type =
        both_hold c.on_platform _ _ _ (merge_platform_type l r) h.platform_type k.platform_type;
  }

  pub Satisfies-of_merge :
      (c : Conditions) → ApartQueries l r → Satisfies c (merge l r) → Satisfies c l × Satisfies c r
  Satisfies-of_merge c a h =
      let (n, n') = each_holds c.named _ _ _ (merge_name l r) a.name h.name in
      let (t, t') = each_holds c.noted _ _ _ (merge_notes l r) a.notes h.notes in
      let (m, m') = each_holds c.shot_with _ _ _ (merge_camera l r) a.camera h.camera in
      let (s, s') = each_holds c.in_session _ _ _ (merge_session l r) a.session h.session in
      let (d, d') = each_holds c.from _ _ _ merge_min a.min_date h.min_date in
      let (u, u') = each_holds c.until _ _ _ merge_max a.max_date h.max_date in
      let (p, p') =
        each_holds c.on_platform _ _ _ (merge_platform_type l r) a.platform_type h.platform_type in
      (
        record {
          name = n;
          notes = t;
          camera = m;
          session = s;
          min_date = d;
          max_date = u;
          platform_type = p;
        },
        record {
          name = n';
          notes = t';
          camera = m';
          session = s';
          min_date = d';
          max_date = u';
          platform_type = p';
        },
      )

  pub ApartQueries-merge :
      (q : ImageQuery) → ApartQueries l q → ApartQueries r q → ApartQueries (merge l r) q
  ApartQueries-merge q h k = record {
    name = apart_or_else _ _ _ _ (merge_name l r) h.name k.name;
    notes = apart_or_else _ _ _ _ (merge_notes l r) h.notes k.notes;
    camera = apart_or_else _ _ _ _ (merge_camera l r) h.camera k.camera;
    session = apart_or_else _ _ _ _ (merge_session l r) h.session k.session;
    min_date = apart_or_else _ _ _ _ merge_min h.min_date k.min_date;
    max_date = apart_or_else _ _ _ _ merge_max h.max_date k.max_date;
    platform_type = apart_or_else _ _ _ _ (merge_platform_type l r) h.platform_type k.platform_type;
  }
