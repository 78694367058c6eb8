-- ===== src/Cluster/Genuine.antt =====
-- What the tables and the messages of a cluster hold: entries about its nodes, in incarnations that
-- these have reached.
use failure_detector.Prelude.{
  ℕ, ◌≤◌, ◌≡◌, ◌≢◌, refl, false, sym, ◌∙◌, ap, subst, ◌⊎◌, inr, true, List, [], ◌∷◌, arith, All,
}
use failure_detector.Node.{NodeId}
use failure_detector.Store.{MemberEntry, alive, suspect, failed, is_left, key, accuses}
use failure_detector.Store.OwnRow.{IsOldClaim}
use failure_detector.Cluster.Nodes.{IsStateless}

pub All-mono {ℓ} :
    {A : Type ℓ} (P Q : A → Type 0) → ((x : A) → P x → Q x) → (l : List A) → All P l → All Q l
All-mono P Q f [] h = tt
All-mono P Q f (x ∷ l) h = (f x h.0, All-mono P Q f l h.1)

module _ {I : Type 0} (who : I → NodeId) where
  -- An entry about one of the nodes, in an incarnation that the node has reached; no one has left.
  abbrev pub Genuine : (I → ℕ) → MemberEntry → Type 0
  Genuine inc e =
      (i : I) × (e.id ≡ who i)
      × (e.incarnation ≤ inc i)
      × ((e.state ≡ alive) ⊎ (accuses e.state ≡ true))

  pub Genuine-IsStateless : (inc : I → ℕ) → IsStateless (Genuine inc)
  Genuine-IsStateless inc = record {
    to_suspect = λ e (i, about, low, says). (i, about, low, inr refl);
    to_failed = λ e (i, about, low, says). (i, about, low, inr refl);
  }

  pub Genuine-mono :
      (inc inc' : I → ℕ)
      → ((i : I) → inc i ≤ inc' i)
      → (e : MemberEntry) → Genuine inc e
      → Genuine inc' e
  Genuine-mono inc inc' le e (i, about, low, says) = (i, about, omega (arith, le i), says)

  pub Genuine-IsOldClaim :
      ((i j : I) → key (who i) ≡ key (who j) → i ≡ j)
      → (inc : I → ℕ) (i : I) (e : MemberEntry) → Genuine inc e
      → IsOldClaim (inc i) (who i) e
  Genuine-IsOldClaim distinct inc i e (j, about, low, says) same =
      let here = distinct j i (ap key (sym about) ∙ same) in
      (about ∙ ap who here, subst (λ x. e.incarnation ≤ inc x) here low, says)

  pub Genuine-there : (inc : I → ℕ) (e : MemberEntry) → Genuine inc e → is_left e.state ≡ false
  Genuine-there inc e (i, about, low, says) = ground (arith, says)

  -- A genuine entry about the endpoint of node `i` is about node `i`.
  pub Genuine-apart :
      ((i j : I) → key (who i) ≡ key (who j) → i ≡ j)
      → (inc : I → ℕ) (i : I) (e : MemberEntry) (self : NodeId) → self ≡ who i
      → Genuine inc e
      → e.id ≢ self
      → key e.id ≢ key self
  Genuine-apart distinct inc i e self me (j, about, low, says) peer same =
      peer (about ∙ ap who (distinct j i (ap key (sym about) ∙ same ∙ ap key me)) ∙ sym me)

  -- A genuine row that is marked in the incarnation of a genuine entry about its endpoint.
  pub Genuine-marked :
      ((i j : I) → key (who i) ≡ key (who j) → i ≡ j)
      → (inc : I → ℕ) (e x : MemberEntry) → key e.id ≡ key x.id
      → Genuine inc e
      → Genuine inc x
      → Genuine inc (record x { incarnation = e.incarnation; state = suspect })
        × Genuine inc (record x { incarnation = e.incarnation; state = failed })
  Genuine-marked distinct inc e x same (j, about, low, says) (i, about', low', says') =
      let one = distinct j i (ap key (sym about) ∙ same ∙ ap key about') in
      let low'' = subst (λ y. e.incarnation ≤ inc y) one low in
      ((i, about', low'', inr refl), (i, about', low'', inr refl))
