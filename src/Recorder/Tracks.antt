-- ===== src/Recorder/Tracks.antt =====
-- Which chunks a call's tracks of recorder.py hold.
use isales_telephony.Base.{
  ℕ, ◌≡◌, refl, sym, ap, ◌∙◌, Bool, true, false, Option, none, some, List, [], ◌∷◌, ◌++◌, ◌==◌,
  ==_iff, if◌then◌else◌, Outcome, ok, err, arith, Bool-cases, inl, inr, ltb, append_assoc,
  append-nil,
}
use isales_telephony.RingBuffer.{Bytes}
use isales_telephony.Recorder.{
  CallTracks, Recorder, find, remove, assign, with_track, append_user, append_ai, write_stereo_wav,
  finalize, RecordError, begin_call,
}

find-remove :
    (id j : ℕ) (ts : List (ℕ × CallTracks)) → (j == id) ≡ false → find id (remove j ts) ≡ find id ts
unfolding find remove
find-remove id j [] h = refl
find-remove id j ((k, t) ∷ ts) h = ground (arith, find-remove id j ts h)

find-remove_self : (id : ℕ) (ts : List (ℕ × CallTracks)) → find id (remove id ts) ≡ none
unfolding find remove
find-remove_self id [] = refl
find-remove_self id ((k, t) ∷ ts) = ground (arith, find-remove_self id ts)

pub find-assign :
    (id j : ℕ) (t : CallTracks) (r : Recorder)
    → find id (assign j t r).tracks ≡ (if j == id then some t else find id r.tracks)
unfolding find
find-assign id j t r = elim (Bool-cases (j == id)) [
  | inl o ↦ rw o refl
  | inr o ↦ rw o (find-remove id j r.tracks o)
]

-- A chunk that a pump hands to the recorder: of the user or of the AI, for a call.
pub data Append : Type 0 where
  user : ℕ → Bytes → Append
  ai : ℕ → Bytes → Append

unfoldable pub append_all : List Append → Recorder → Recorder
append_all [] r = r
append_all (user id pcm ∷ rest) r = append_all rest (append_user id pcm r)
append_all (ai id pcm ∷ rest) r = append_all rest (append_ai id pcm r)

abbrev mine : ℕ → ℕ → Bytes → List Bytes
mine id j pcm = if j == id then pcm ∷ [] else []

-- The chunks of one call, in their order.
unfoldable pub user_of : ℕ → List Append → List Bytes
user_of id [] = []
user_of id (user j pcm ∷ rest) = mine id j pcm ++ user_of id rest
user_of id (ai _ _ ∷ rest) = user_of id rest

unfoldable pub ai_of : ℕ → List Append → List Bytes
ai_of id [] = []
ai_of id (user _ _ ∷ rest) = ai_of id rest
ai_of id (ai j pcm ∷ rest) = mine id j pcm ++ ai_of id rest

find-with_track :
    (g : CallTracks → CallTracks) (id j : ℕ) (r : Recorder) (t : CallTracks)
    → find id r.tracks ≡ some t
    → find id (with_track g j r (find j r.tracks)).tracks ≡ some (if j == id then g t else t)
find-with_track g id j r t e = elim (Bool-cases (j == id)) [
  | inl o ↦
      let same : j ≡ id = (==_iff j id).0 o in
      let own : find j r.tracks ≡ some t = ap (λ k. find k r.tracks) same ∙ e in
      rw (own, find-assign id j (g t) r, o) refl
  | inr o ↦ rw o (other o (find j r.tracks))
]
  where
    other :
        (j == id) ≡ false → (q : Option CallTracks) → find id (with_track g j r q).tracks ≡ some t
    other o none = e
    other o (some u) = find-assign id j (g u) r ∙ rw o e

-- `t` with some chunks appended to both tracks
abbrev grown : CallTracks → List Bytes → List Bytes → CallTracks
grown t us as' = record { user_chunks = t.user_chunks ++ us; ai_chunks = t.ai_chunks ++ as' }

grow_user :
    (b : Bool) (t : CallTracks) (pcm : Bytes) (us vs : List Bytes)
    → grown (if b then record t { user_chunks = t.user_chunks ++ pcm ∷ [] } else t) us vs
      ≡ grown t ((if b then pcm ∷ [] else []) ++ us) vs
grow_user true t pcm us vs =
    ap (λ l. record { user_chunks = l; ai_chunks = t.ai_chunks ++ vs })
      (append_assoc t.user_chunks (pcm ∷ []) us)
grow_user false t pcm us vs = refl

grow_ai :
    (b : Bool) (t : CallTracks) (pcm : Bytes) (us vs : List Bytes)
    → grown (if b then record t { ai_chunks = t.ai_chunks ++ pcm ∷ [] } else t) us vs
      ≡ grown t us ((if b then pcm ∷ [] else []) ++ vs)
grow_ai true t pcm us vs =
    ap (λ l. record { user_chunks = t.user_chunks ++ us; ai_chunks = l })
      (append_assoc t.ai_chunks (pcm ∷ []) vs)
grow_ai false t pcm us vs = refl

append_all-grown :
    (id : ℕ) (chunks : List Append) (r : Recorder) (t : CallTracks)
    → find id r.tracks ≡ some t
    → find id (append_all chunks r).tracks ≡ some (grown t (user_of id chunks) (ai_of id chunks))
unfolding append_all user_of ai_of append_user append_ai
append_all-grown id [] r t e = rw (append-nil, append-nil) e
append_all-grown id (user j pcm ∷ rest) r t e =
    append_all-grown id rest (append_user j pcm r) _ (find-with_track _ id j r t e)
    ∙ ap some (grow_user (j == id) t pcm (user_of id rest) (ai_of id rest))
append_all-grown id (ai j pcm ∷ rest) r t e =
    append_all-grown id rest (append_ai j pcm r) _ (find-with_track _ id j r t e)
    ∙ ap some (grow_ai (j == id) t pcm (user_of id rest) (ai_of id rest))

ok-injective : {r s : Recorder} → ◌≡◌ {A = Outcome RecordError Recorder} (ok r) (ok s) → r ≡ s
ok-injective {r = r} e = ap (λ o. elim o [ ok t ↦ t | err _ ↦ r ]) e

begin_call-find :
    (free id : ℕ) (r : Recorder) {s : Recorder}
    → begin_call free id r ≡ ok s
    → find id s.tracks ≡ some (record { user_chunks = []; ai_chunks = [] })
unfolding begin_call
begin_call-find free id r {s = s} h = elim (Bool-cases (ltb free r.min_free_bytes)) [
  | inl o ↦ absurd (ground (arith, o))
  | inr o ↦
      let t : CallTracks = record { user_chunks = []; ai_chunks = [] } in
      let made : assign id t r ≡ s = ok-injective (rw o at h) in
      ap (λ (q : Recorder). find id q.tracks) (sym made)
      ∙ find-assign id id t r
      ∙ rw ((==_iff id id).1 refl) refl
]

-- Between `begin_call` and `finalize` of a call, whatever the pumps of this and of other calls hand
-- over: the file is written from the chunks of this call alone, each track in order, and the
-- recorder then knows the call no more.
pub finalize_recorded :
    (free id : ℕ) (chunks : List Append) (r : Recorder) {s : Recorder}
    → begin_call free id r ≡ ok s
    → ((finalize id (append_all chunks s)).0
        ≡ some (write_stereo_wav (user_of id chunks) (ai_of id chunks)))
      × (find id (finalize id (append_all chunks s)).1.tracks ≡ none)
unfolding finalize
finalize_recorded free id chunks r {s = s} h =
    let begun : find id s.tracks ≡ some (record { user_chunks = []; ai_chunks = [] }) =
      begin_call-find free id r h in
    let all = append_all-grown id chunks s _ begun in
    (rw all refl, find-remove_self id (append_all chunks s).tracks)
