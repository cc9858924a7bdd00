-- ===== src/Tunnel/Protocol/Phases.antt =====
-- The phases of a link, and that no message ever comes to a link that is not there.
use tun.Prelude.{
  ℕ, ◌≡◌, ◌≢◌, refl, subst, List, [], ◌∷◌, ◌++◌, append-nil, Bool, true, false, Option, none, some,
  if◌then◌else◌, arith,
}
use tun.Tunnel.Protocol.{
  Message, create, created, payload, close, ack, End, fresh, waiting, open_end, closing, gone,
  System, near_receive, far_receive, Step, accept, near_sends, near_closes, far_sends, far_closes,
  near_takes, far_takes, Reach, begin, next,
}

-- Data and acknowledgments, and behind them, if the flag is set, one LINK_CLOSE at the very end.
abbrev pub Flow : Bool → List Message → Type 0
Flow true [] = ⊥
Flow false [] = Unit
Flow b (payload bs ∷ q) = Flow b q
Flow b (ack ∷ q) = Flow b q
Flow true (close ∷ q) = q ≡ []
Flow false (close ∷ q) = ⊥
Flow b (create ∷ q) = ⊥
Flow b (created x ∷ q) = ⊥

-- An answer of success in front.
abbrev pub Answered : Bool → List Message → Type 0
Answered b (created true ∷ q) = Flow b q
Answered b _ = ⊥

abbrev pub Refused : List Message → Type 0
Refused (created false ∷ []) = Unit
Refused _ = ⊥

abbrev pub Asked : List Message → Type 0
Asked (create ∷ []) = Unit
Asked _ = ⊥

-- What is under way, by the ends.
abbrev pub Phase : End → End → List Message → List Message → Type 0
Phase fresh fresh f n = (f ≡ []) × (n ≡ [])
Phase waiting fresh f n = Asked f × (n ≡ [])
Phase waiting open_end f n = (f ≡ []) × Answered false n
Phase waiting closing f n = (f ≡ []) × Answered true n
Phase waiting gone f n = (f ≡ []) × Refused n
Phase open_end open_end f n = Flow false f × Flow false n
Phase open_end closing f n = Flow false f × Flow true n
Phase closing open_end f n = Flow true f × Flow false n
Phase closing closing f n = Flow true f × Flow true n
Phase gone closing f n = Flow true f × (n ≡ [])
Phase closing gone f n = (f ≡ []) × Flow true n
Phase gone gone f n = (f ≡ []) × (n ≡ [])
Phase _ _ f n = ⊥

abbrev pub IsPhase : System → Type 0
IsPhase s = Phase s.near s.far s.to_far s.to_near

abbrev IsData : Message → Type 0
IsData (payload bs) = Unit
IsData ack = Unit
IsData _ = ⊥

Flow-data : (q : List Message) (m : Message) → IsData m → Flow false q → Flow false (q ++ m ∷ [])
Flow-data [] (payload bs) d h = tt
Flow-data [] ack d h = tt
Flow-data [] _ d h = elim d [ ]
Flow-data (payload bs ∷ q) m d h = Flow-data q m d h
Flow-data (ack ∷ q) m d h = Flow-data q m d h
Flow-data (_ ∷ q) m d h = elim h [ ]

Flow-close : (q : List Message) → Flow false q → Flow true (q ++ close ∷ [])
Flow-close [] h = refl
Flow-close (payload bs ∷ q) h = Flow-close q h
Flow-close (ack ∷ q) h = Flow-close q h
Flow-close (_ ∷ q) h = elim h [ ]

Answered-data :
    (q : List Message) (m : Message) → IsData m → Answered false q → Answered false (q ++ m ∷ [])
Answered-data (created true ∷ q) m d h = Flow-data q m d h
Answered-data _ m d h = elim h [ ]

Answered-close : (q : List Message) → Answered false q → Answered true (q ++ close ∷ [])
Answered-close (created true ∷ q) h = Flow-close q h
Answered-close _ h = elim h [ ]

Flow-answer :
    (acks : Bool) (q : List Message)
    → Flow false q
    → Flow false (q ++ (if acks then ack ∷ [] else []))
Flow-answer true q h = Flow-data q ack tt h
Flow-answer false q h = rw append-nil h

accept-Phase :
    (far : End) (f n : List Message) → Phase fresh far f n → Phase waiting far (f ++ create ∷ []) n
accept-Phase fresh f n h = rw h.0 (tt, h.1)
accept-Phase _ f n h = elim h [ ]

near_sends-Phase :
    (far : End) (bs : List ℕ) (f n : List Message)
    → Phase open_end far f n
    → Phase open_end far (f ++ payload bs ∷ []) n
near_sends-Phase open_end bs f n h = (Flow-data f _ tt h.0, h.1)
near_sends-Phase closing bs f n h = (Flow-data f _ tt h.0, h.1)
near_sends-Phase _ bs f n h = elim h [ ]

near_closes-Phase :
    (far : End) (f n : List Message)
    → Phase open_end far f n
    → Phase closing far (f ++ close ∷ []) n
near_closes-Phase open_end f n h = (Flow-close f h.0, h.1)
near_closes-Phase closing f n h = (Flow-close f h.0, h.1)
near_closes-Phase _ f n h = elim h [ ]

far_sends-Phase :
    (near : End) (bs : List ℕ) (f n : List Message)
    → Phase near open_end f n
    → Phase near open_end f (n ++ payload bs ∷ [])
far_sends-Phase waiting bs f n h = (h.0, Answered-data n _ tt h.1)
far_sends-Phase open_end bs f n h = (h.0, Flow-data n _ tt h.1)
far_sends-Phase closing bs f n h = (h.0, Flow-data n _ tt h.1)
far_sends-Phase _ bs f n h = elim h [ ]

far_closes-Phase :
    (near : End) (f n : List Message)
    → Phase near open_end f n
    → Phase near closing f (n ++ close ∷ [])
far_closes-Phase waiting f n h = (h.0, Answered-close n h.1)
far_closes-Phase open_end f n h = (h.0, Flow-close n h.1)
far_closes-Phase closing f n h = (h.0, Flow-close n h.1)
far_closes-Phase _ f n h = elim h [ ]

-- The message is not for a link that is not there.
abbrev Next : (End → List Message → Type 0) → Option (End × List Message) → Type 0
Next P none = ⊥
Next P (some (e, sent)) = P e sent

near_takes-Phase :
    (acks : Bool) (near far : End) (f : List Message) (m : Message) (rest : List Message)
    → Phase near far f (m ∷ rest)
    → Next (λ e sent. Phase e far (f ++ sent) rest) (near_receive acks near m)
unfolding near_receive
near_takes-Phase acks waiting open_end f (created true) rest h = rw h.0 (tt, h.1)
near_takes-Phase acks waiting closing f (created true) rest h = rw h.0 (tt, h.1)
near_takes-Phase acks waiting gone f (created false) [] h = rw h.0 (refl, refl)
near_takes-Phase acks open_end open_end f (payload bs) rest h = (Flow-answer acks f h.0, h.1)
near_takes-Phase acks open_end open_end f ack rest h = rw append-nil h
near_takes-Phase acks open_end closing f (payload bs) rest h = (Flow-answer acks f h.0, h.1)
near_takes-Phase acks open_end closing f ack rest h = rw append-nil h
near_takes-Phase acks open_end closing f close rest h = (Flow-close f h.0, h.1)
near_takes-Phase acks closing open_end f (payload bs) rest h = rw append-nil h
near_takes-Phase acks closing open_end f ack rest h = rw append-nil h
near_takes-Phase acks closing closing f (payload bs) rest h = rw append-nil h
near_takes-Phase acks closing closing f ack rest h = rw append-nil h
near_takes-Phase acks closing closing f close rest h = rw append-nil h
near_takes-Phase acks closing gone f (payload bs) rest h = rw append-nil h
near_takes-Phase acks closing gone f ack rest h = rw append-nil h
near_takes-Phase acks closing gone f close rest h = rw append-nil h
near_takes-Phase acks fresh fresh f m rest h = cc
near_takes-Phase acks waiting fresh f m rest h = cc
near_takes-Phase acks gone closing f m rest h = cc
near_takes-Phase acks gone gone f m rest h = cc
near_takes-Phase acks _ _ f _ _ h = ground arith

far_takes-Phase :
    (connects acks : Bool) (near far : End) (n : List Message) (m : Message) (rest : List Message)
    → Phase near far (m ∷ rest) n
    → Next (λ e sent. Phase near e rest (n ++ sent)) (far_receive connects acks far m)
unfolding far_receive
far_takes-Phase true acks waiting fresh n create [] h = rw h.1 (refl, tt)
far_takes-Phase false acks waiting fresh n create [] h = rw h.1 (refl, tt)
far_takes-Phase connects acks open_end open_end n (payload bs) rest h =
    (h.0, Flow-answer acks n h.1)
far_takes-Phase connects acks open_end open_end n ack rest h = rw append-nil h
far_takes-Phase connects acks closing open_end n (payload bs) rest h = (h.0, Flow-answer acks n h.1)
far_takes-Phase connects acks closing open_end n ack rest h = rw append-nil h
far_takes-Phase connects acks closing open_end n close rest h = (h.0, Flow-close n h.1)
far_takes-Phase connects acks open_end closing n (payload bs) rest h = rw append-nil h
far_takes-Phase connects acks open_end closing n ack rest h = rw append-nil h
far_takes-Phase connects acks closing closing n (payload bs) rest h = rw append-nil h
far_takes-Phase connects acks closing closing n ack rest h = rw append-nil h
far_takes-Phase connects acks closing closing n close rest h = rw append-nil h
far_takes-Phase connects acks gone closing n (payload bs) rest h = rw append-nil h
far_takes-Phase connects acks gone closing n ack rest h = rw append-nil h
far_takes-Phase connects acks gone closing n close rest h = rw append-nil h
far_takes-Phase connects acks _ _ n _ _ h = ground arith

Next-some :
    (P : End → List Message → Type 0) (x : Option (End × List Message)) (e : End)
    (sent : List Message)
    → x ≡ some (e, sent)
    → Next P x
    → P e sent
Next-some P x e sent q h = subst (Next P) q h

Next-ne-none :
    (P : End → List Message → Type 0) (x : Option (End × List Message)) → Next P x → x ≢ none
Next-ne-none P x h q = subst (Next P) q h

Step-IsPhase : {acks : Bool} {s t : System} → Step acks s t → IsPhase s → IsPhase t
Step-IsPhase {acks} {s} (accept e) h =
    accept-Phase s.far s.to_far s.to_near (subst (λ x. Phase x s.far s.to_far s.to_near) e h)
Step-IsPhase {acks} {s} (near_sends bs e) h = rw e (
    near_sends-Phase s.far bs s.to_far s.to_near
      (subst (λ x. Phase x s.far s.to_far s.to_near) e h))
Step-IsPhase {acks} {s} (near_closes e) h =
    near_closes-Phase s.far s.to_far s.to_near (subst (λ x. Phase x s.far s.to_far s.to_near) e h)
Step-IsPhase {acks} {s} (far_sends bs e) h = rw e (
    far_sends-Phase s.near bs s.to_far s.to_near
      (subst (λ x. Phase s.near x s.to_far s.to_near) e h))
Step-IsPhase {acks} {s} (far_closes e) h =
    far_closes-Phase s.near s.to_far s.to_near (subst (λ x. Phase s.near x s.to_far s.to_near) e h)
Step-IsPhase {acks} {s} (near_takes {e} {m} {rest} {sent} q r) h = Next-some _ _ e sent r (
    near_takes-Phase acks s.near s.far s.to_far m rest
      (subst (λ x. Phase s.near s.far s.to_far x) q h))
Step-IsPhase {acks} {s} (far_takes connects {e} {m} {rest} {sent} q r) h = Next-some _ _ e sent r (
    far_takes-Phase connects acks s.near s.far s.to_near m rest
      (subst (λ x. Phase s.near s.far x s.to_near) q h))

-- In every state that the steps of the two ends reach, the ends and what is under way are in one of
-- twelve phases: LINK_CREATE is sent once and its answer comes before all else, an end that closes
-- first has one LINK_CLOSE under way with nothing behind it until the other end has taken it, and
-- when both ends are gone nothing is under way.
pub Reach-IsPhase : {acks : Bool} {s : System} → Reach acks s → IsPhase s
Reach-IsPhase begin = (refl, refl)
Reach-IsPhase (next r step) = Step-IsPhase step (Reach-IsPhase r)

-- The oldest message has an answer.
abbrev pub Handled : (End → Message → Option (End × List Message)) → End → List Message → Type 0
Handled receive e [] = Unit
Handled receive e (m ∷ rest) = receive e m ≢ none

near-Handled :
    (acks : Bool) (near far : End) (f n : List Message)
    → Phase near far f n
    → Handled (near_receive acks) near n
near-Handled acks near far f [] h = tt
near-Handled acks near far f (m ∷ rest) h =
    Next-ne-none (λ e sent. Phase e far (f ++ sent) rest) (near_receive acks near m)
      (near_takes-Phase acks near far f m rest h)

far-Handled :
    (connects acks : Bool) (near far : End) (f n : List Message)
    → Phase near far f n
    → Handled (far_receive connects acks) far f
far-Handled connects acks near far [] n h = tt
far-Handled connects acks near far (m ∷ rest) n h =
    Next-ne-none (λ e sent. Phase near e rest (n ++ sent)) (far_receive connects acks far m)
      (far_takes-Phase connects acks near far n m rest h)

-- In every state that the steps of the two ends reach, the oldest message under way to either end
-- is one that the end has an answer to: none comes to a link that is not there, and no LINK_CREATE
-- or answer to one comes at the wrong time.
pub Reach-Handled :
    {acks : Bool} {s : System} (connects : Bool)
    → Reach acks s
    → Handled (near_receive acks) s.near s.to_near
      × Handled (far_receive connects acks) s.far s.to_far
Reach-Handled {acks} {s} connects r = (
  near-Handled acks s.near s.far s.to_far s.to_near (Reach-IsPhase r),
  far-Handled connects acks s.near s.far s.to_far s.to_near (Reach-IsPhase r),
)
