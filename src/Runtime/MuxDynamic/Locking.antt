-- ===== src/Runtime/MuxDynamic/Locking.antt =====
-- runtime/mux_dynamic.go against runtime/mux.go: the lock, and the answer behind it.
use grpc_gateway.Prelude.{
  ℕ, zero, suc, ◌≡◌, ◌≢◌, refl, sym, ◌∙◌, Bool, List, [], ◌∷◌, Option, none, some, Text, arith,
  split, drop, take, ◌+◌, Result, ok, fail, text_eq, if-intro,
}
use grpc_gateway.Runtime.Http.{Request}
use grpc_gateway.Runtime.Pattern.{Bindings, MatchError, not_match, panic, match}
use grpc_gateway.Runtime.Mux
use grpc_gateway.Runtime.Mux.{
  Handler, Table, ServeMux, Outcome, handled, routing_error, form_error, crashed, Routed, answered,
  unmatched, or_not_found, or_else, on_match, on_stripped, strip, strip_last, route, try_others,
  other_methods, overrides, override_method, is_path_length_fallback, handlers_of, last_component,
  set_last, verb_index, on_other,
}
use grpc_gateway.Runtime.MuxDynamic.{
  Event, rlock, runlock, calls, tried, round_at, round, suffix_at, try_handlers, tried_other,
  try_method, lookup_other_methods, dispatch, serve_http,
}
use grpc_gateway.Prelude.{not}
use grpc_gateway.Prelude.{has_prefix}
use grpc_gateway.Prelude.{slash}
use grpc_gateway.Runtime.MuxDynamic.Answers.{answers, answers-dispatch}

module _ {H : Type 0} where
  -- The dynamic multiplexer answers every request once, and as the plain one with the same handlers
  -- does that walks the methods in the same order.
  pub answers-serve_http :
      (s : ServeMux H) (r : Request) → answers (serve_http s r) ≡ Mux.serve_http s r ∷ []
  unfolding serve_http Mux.serve_http
  answers-serve_http s r = ground (
    arith,
    answers-dispatch s r (split b'/' (drop 1 r.path)),
    answers-dispatch s (override_method r) (split b'/' (drop 1 r.path)),
  )

-- Where a run stands with the lock: it has not taken it yet, it holds it, or it has given it back.
pub data Phase : Type 0 where
  fresh reading done : Phase

module _ {H : Type 0} where
  -- The read lock is taken at most once, and what is taken is given back; whoever is called, is called
  -- with the lock free, and the run ends with that call. The lock for writing is not touched.
  abbrev pub IsDisciplined : Phase → List (Event H) → Type 0
  IsDisciplined fresh (rlock ∷ es) = IsDisciplined reading es
  IsDisciplined fresh (calls o ∷ es) = es ≡ []
  IsDisciplined reading (runlock ∷ es) = IsDisciplined done es
  IsDisciplined done (calls o ∷ es) = es ≡ []
  IsDisciplined _ _ = ⊥

  -- A run that holds the lock at its start, and does not end in a panic.
  abbrev Good : List (Event H) → Type 0
  Good es = answers es ≢ crashed ∷ [] → IsDisciplined reading es

  tried_other-Good :
      (f form_ok : Bool) (h : H) (m : Result MatchError Bindings) (rest : List (Event H))
      → Good rest
      → Good (tried_other f form_ok h m rest)
  tried_other-Good f form_ok h (ok b) rest g = λ _. refl
  tried_other-Good f form_ok h (fail not_match) rest g = g
  tried_other-Good f form_ok h (fail panic) rest g = λ n. absurd (n refl)

  try_method-Good :
      (f form_ok : Bool) (hs : List (Handler H)) (cs : List Text) (verb : Text)
      (rest : List (Event H))
      → Good rest
      → Good (try_method f form_ok hs cs verb rest)
  unfolding try_method
  try_method-Good f form_ok [] cs verb rest g = g
  try_method-Good f form_ok (h ∷ hs) cs verb rest g =
      tried_other-Good f form_ok h.h (match h.pat cs verb) _
        (try_method-Good f form_ok hs cs verb rest g)

  lookup-Good :
      (f form_ok : Bool) (t : Table H) (meth : Text) (cs : List Text) (verb : Text)
      → Good (lookup_other_methods f form_ok t meth cs verb)
  unfolding lookup_other_methods
  lookup-Good f form_ok [] meth cs verb = λ _. refl
  lookup-Good f form_ok ((m, hs) ∷ t) meth cs verb =
      let ih = lookup-Good f form_ok t meth cs verb in
      if-intro Good (text_eq m meth) ih (try_method-Good f form_ok hs cs verb _ ih)

  tried-Good :
      (h : H) (m : Result MatchError Bindings) (rest : List (Event H))
      → Good rest
      → Good (tried h m rest)
  tried-Good h (ok b) rest g = λ _. refl
  tried-Good h (fail not_match) rest g = g
  tried-Good h (fail panic) rest g = λ n. absurd (n refl)

  round_at-Good :
      (h : Handler H) (cs : List Text) (verb last : Text) (idx : Option ℕ)
      (next : List Text → Text → List (Event H))
      → ((ds : List Text) (v : Text) → Good (next ds v))
      → Good (round_at h cs verb last idx next)
  round_at-Good h cs verb last none next g =
      tried-Good h.h (match h.pat cs verb) (next cs verb) (g cs verb)
  round_at-Good h cs verb last (some zero) next g = λ _. refl
  round_at-Good h cs verb last (some (suc i)) next g =
      let cut = set_last (take (suc i) last) cs in
      let found = drop (suc i + 1) last in
      tried-Good h.h (match h.pat cut found) (next cut found) (g cut found)

  round-Good :
      (h : Handler H) (cs : List Text) (verb : Text) (last : Option Text)
      (next : List Text → Text → List (Event H))
      → ((ds : List Text) (v : Text) → Good (next ds v))
      → Good (round h cs verb last next)
  round-Good h cs verb none next g = λ n. absurd (n refl)
  round-Good h cs verb (some last) next g =
      round_at-Good h cs verb last (suffix_at h.pat.verb last) next g

  try_handlers-Good :
      (lookup : List Text → Text → List (Event H))
      → ((ds : List Text) (v : Text) → Good (lookup ds v))
      → (hs : List (Handler H)) (cs : List Text) (verb : Text)
      → Good (try_handlers lookup hs cs verb)
  unfolding try_handlers
  try_handlers-Good lookup g [] cs verb = g cs verb
  try_handlers-Good lookup g (h ∷ hs) cs verb =
      round-Good h cs verb (last_component cs) (try_handlers lookup hs)
        (try_handlers-Good lookup g hs)

  -- The same of a run that starts without the lock.
  abbrev GoodRun : List (Event H) → Type 0
  GoodRun es = answers es ≢ crashed ∷ [] → IsDisciplined fresh es

  dispatch-GoodRun : (s : ServeMux H) (r : Request) (cs : List Text) → GoodRun (dispatch s r cs)
  unfolding dispatch
  dispatch-GoodRun s r cs =
      try_handlers-Good _ (lookup-Good (is_path_length_fallback s r) r.form_ok s.handlers r.method)
        (handlers_of s.handlers r.method) cs []

  serve_http-GoodRun : (s : ServeMux H) (r : Request) → GoodRun (serve_http s r)
  unfolding serve_http
  serve_http-GoodRun s r =
      let cs = split b'/' (drop 1 r.path) in
      if-intro GoodRun (not (has_prefix r.path slash)) (λ _. refl)
        (if-intro GoodRun (overrides s r)
          (if-intro GoodRun r.form_ok (dispatch-GoodRun s (override_method r) cs) (λ _. refl))
          (dispatch-GoodRun s r cs))

  -- Unless `Match` panics, `ServeHTTP` takes the read lock at most once, gives back what it has taken,
  -- and ends with one call, for which the lock is free.
  pub serve_http-IsDisciplined :
      (s : ServeMux H) (r : Request)
      → Mux.serve_http s r ≢ crashed
      → IsDisciplined fresh (serve_http s r)
  serve_http-IsDisciplined s r h =
      serve_http-GoodRun s r λ e. h (head_injective (sym (answers-serve_http s r) ∙ e))
    where
      head_injective : {a b : Outcome H} → ◌≡◌ {A = List (Outcome H)} (a ∷ []) (b ∷ []) → a ≡ b
      head_injective e = cc
