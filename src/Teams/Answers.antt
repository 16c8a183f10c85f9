-- ===== src/Teams/Answers.antt =====
-- Answers to invites: each is given once, and it is how one joins a team.
use oc_piloci.Prelude.{
  ℕ, ◌≢◌, sym, List, [], ◌∷◌, keep, ◌≡◌, refl, ◌∙◌, ap, Option, none, some, Bool, true, false,
  String, ◌==◌, arith,
}
use oc_piloci.Db.{IsSql, found, one}
use oc_piloci.Db.Finding.{one-update}
use oc_piloci.Teams.{
  Site, answered, Caller, Texts, Tables, Status, TeamInvite, handle_invite_response, respond_invite,
  settle, is_pending,
}
use oc_piloci.Teams.Access.{
  Request, create, patch, delete, invite, cancel, answer, respond, remove, step, is_failed,
}

-- Whether a request is an answer to this invite: by its token, or by its id.
abbrev pub names : Texts → Request → TeamInvite → Bool
names texts (answer token new_status now) i = i.token_hash == texts.token_hash token
names texts (respond invite_id body now) i = i.id == invite_id
names texts (create body team_id now) i = false
names texts (patch team_id body) i = false
names texts (delete team_id) i = false
names texts (invite team_id body invite_id token now) i = false
names texts (cancel team_id invite_id) i = false
names texts (remove team_id target) i = false

names_status :
    (texts : Texts) (r : Request) (st : Status) (j : TeamInvite)
    → names texts r (record j { status = st }) ≡ names texts r j
names_status texts (answer token st₀ now) st j = refl
names_status texts (respond id body now) st j = refl
names_status texts (create body i now) st j = refl
names_status texts (patch i body) st j = refl
names_status texts (delete i) st j = refl
names_status texts (invite i body x y now) st j = refl
names_status texts (cancel i x) st j = refl
names_status texts (remove i x) st j = refl

module _ {T M I D B : Type 0} (db : Tables T M I D) (texts : Texts) where
  -- An answer that is given leaves the invite with the new status.
  settle-invites :
      (i : TeamInvite) (st st' : Status) (team : String) (c : Caller) (now : ℕ) (s : Site T M I D B)
      → (settle db texts i st c now s).1 ≡ answered st' team
      → (st ≡ st')
        × ((settle db texts i st c now s).0.invites
            ≡ db.invites.update (λ j. j.id == i.id) (λ j. record j { status = st }) s.invites)
  settle-invites i Status.pending st' team c now s e = ground arith
  settle-invites i Status.rejected st' team c now s e = ground arith
  settle-invites i Status.accepted st' team c now s e = ground arith

  -- An invite that was answered, asked about again.
  answer-closed :
      (c : Option Caller) (token : String) (i : TeamInvite) (st : Status) (now : ℕ)
      (s : Site T M I D B)
      → db.invites.one_or_none (λ j. j.token_hash == texts.token_hash token) s.invites ≡ one i
      → is_pending i.status ≡ false
      → ((handle_invite_response db texts c token st now s).0 ≡ s)
        × (is_failed (handle_invite_response db texts c token st now s).1 ≡ true)
  unfolding handle_invite_response
  answer-closed none token i st now s e h = (refl, refl)
  answer-closed (some c) token i st now s e h = ground arith

  respond-closed :
      (c : Option Caller) (id : String) (i : TeamInvite) (st : Status) (now : ℕ)
      (s : Site T M I D B)
      → db.invites.one_or_none (λ j. j.id == id) s.invites ≡ one i
      → is_pending i.status ≡ false
      → ((respond_invite db texts c id (some (some st)) now s).0 ≡ s)
        × (is_failed (respond_invite db texts c id (some (some st)) now s).1 ≡ true)
  unfolding respond_invite
  respond-closed none id i st now s e h = (refl, refl)
  respond-closed (some c) id i st now s e h = ground arith

  -- An answer that is given changes the status of the invite that it found.
  answer-settled :
      (c : Option Caller) (token : String) (i : TeamInvite) (st st' : Status) (team : String)
      (now : ℕ) (s : Site T M I D B)
      → db.invites.one_or_none (λ j. j.token_hash == texts.token_hash token) s.invites ≡ one i
      → (handle_invite_response db texts c token st now s).1 ≡ answered st' team
      → (st ≡ st')
        × ((handle_invite_response db texts c token st now s).0.invites
            ≡ db.invites.update (λ j. j.id == i.id) (λ j. record j { status = st }) s.invites)
  unfolding handle_invite_response
  answer-settled none token i st st' team now s f e = absurd (cc e)
  answer-settled (some c) token i st st' team now s f e =
      ground (arith, settle-invites i st st' team c now s)

  respond-settled :
      (c : Option Caller) (id : String) (i : TeamInvite) (st st' : Status) (team : String) (now : ℕ)
      (s : Site T M I D B)
      → db.invites.one_or_none (λ j. j.id == id) s.invites ≡ one i
      → (respond_invite db texts c id (some (some st)) now s).1 ≡ answered st' team
      → (st ≡ st')
        × ((respond_invite db texts c id (some (some st)) now s).0.invites
            ≡ db.invites.update (λ j. j.id == i.id) (λ j. record j { status = st }) s.invites)
  unfolding respond_invite
  respond-settled none id i st st' team now s f e = absurd (cc e)
  respond-settled (some c) id i st st' team now s f e =
      ground (arith, settle-invites i st st' team c now s)

  -- A request that answers no invite names none.
  unnamed :
      (laws : IsSql db.invites) (i : TeamInvite) (s : Site T M I D B)
      → db.invites.one_or_none (λ j. false) s.invites ≢ one i
  unnamed laws i s e =
      no_row (db.invites.rows s.invites) (sym (laws.one_or_none_lem (λ j. false) s.invites) ∙ e)
    where
      no_row : (rows : List TeamInvite) → found (keep (λ j. false) rows) ≢ one i
      no_row [] h = cc h
      no_row (j ∷ rows) h = no_row rows h

  -- What one more request does that fails and changes nothing.
  abbrev Refused : Option Caller → Request → Site T M I D B → Type 0
  Refused c r s = ((step db texts c r s).0 ≡ s) × (is_failed (step db texts c r s).1 ≡ true)

  step-settled :
      (laws : IsSql db.invites) (c : Option Caller) (r : Request) (i : TeamInvite) (st : Status)
      (team : String) (s : Site T M I D B)
      → db.invites.one_or_none (names texts r) s.invites ≡ one i
      → (step db texts c r s).1 ≡ answered st team
      → (step db texts c r s).0.invites
        ≡ db.invites.update (λ j. j.id == i.id) (λ j. record j { status = st }) s.invites
  unfolding step respond_invite
  step-settled laws c (answer token st₀ now) i st team s f e =
      let p = answer-settled c token i st₀ st team now s f e in
      p.1
      ∙ ap (λ x. db.invites.update (λ j. j.id == i.id) (λ j. record j { status = x }) s.invites) p.0
  step-settled laws c (respond id (some (some st₀)) now) i st team s f e =
      let p = respond-settled c id i st₀ st team now s f e in
      p.1
      ∙ ap (λ x. db.invites.update (λ j. j.id == i.id) (λ j. record j { status = x }) s.invites) p.0
  step-settled laws none (respond id none now) i st team s f e = absurd (cc e)
  step-settled laws none (respond id (some none) now) i st team s f e = absurd (cc e)
  step-settled laws (some c) (respond id none now) i st team s f e = absurd (cc e)
  step-settled laws (some c) (respond id (some none) now) i st team s f e = absurd (cc e)
  step-settled laws c (create body j now) i st team s f e = absurd (unnamed laws i s f)
  step-settled laws c (patch j body) i st team s f e = absurd (unnamed laws i s f)
  step-settled laws c (delete j) i st team s f e = absurd (unnamed laws i s f)
  step-settled laws c (invite j body x y now) i st team s f e = absurd (unnamed laws i s f)
  step-settled laws c (cancel j x) i st team s f e = absurd (unnamed laws i s f)
  step-settled laws c (remove j x) i st team s f e = absurd (unnamed laws i s f)

  step-closed :
      (laws : IsSql db.invites) (c : Option Caller) (r : Request) (i : TeamInvite)
      (s : Site T M I D B)
      → db.invites.one_or_none (names texts r) s.invites ≡ one i
      → is_pending i.status ≡ false
      → Refused c r s
  unfolding step respond_invite
  step-closed laws c (answer token st₀ now) i s f h = answer-closed c token i st₀ now s f h
  step-closed laws c (respond id (some (some st₀)) now) i s f h =
      respond-closed c id i st₀ now s f h
  step-closed laws none (respond id none now) i s f h = (refl, refl)
  step-closed laws none (respond id (some none) now) i s f h = (refl, refl)
  step-closed laws (some c) (respond id none now) i s f h = (refl, refl)
  step-closed laws (some c) (respond id (some none) now) i s f h = (refl, refl)
  step-closed laws c (create body j now) i s f h = absurd (unnamed laws i s f)
  step-closed laws c (patch j body) i s f h = absurd (unnamed laws i s f)
  step-closed laws c (delete j) i s f h = absurd (unnamed laws i s f)
  step-closed laws c (invite j body x y now) i s f h = absurd (unnamed laws i s f)
  step-closed laws c (cancel j x) i s f h = absurd (unnamed laws i s f)
  step-closed laws c (remove j x) i s f h = absurd (unnamed laws i s f)

  -- An invite that was accepted or rejected is closed: the next request fails and changes nothing if
  -- it is an answer to the same invite, each of the two by the token or by the id, from whomever, at any time
  -- and with any answer.
  pub step-again :
      (laws : IsSql db.invites) (c c' : Option Caller) (r r' : Request) (i : TeamInvite)
      (st : Status) (team : String) (s : Site T M I D B)
      → db.invites.one_or_none (names texts r) s.invites ≡ one i
      → db.invites.one_or_none (names texts r') s.invites ≡ one i
      → (step db texts c r s).1 ≡ answered st team
      → is_pending st ≡ false
      → ((step db texts c' r' (step db texts c r s).0).0 ≡ (step db texts c r s).0)
        × (is_failed (step db texts c' r' (step db texts c r s).0).1 ≡ true)
  step-again laws c c' r r' i st team s f f' e h =
      step-closed laws c' r' (record i { status = st }) (step db texts c r s).0
        (ap (db.invites.one_or_none (names texts r')) (step-settled laws c r i st team s f e)
          ∙ one-update db.invites laws (λ j. j.id) (names texts r') i
              (λ j. record j { status = st }) s.invites (names_status texts r' st) f')
        h
