-- ===== src/Whatsapp/Sweep/Kept.antt =====
-- What a sweep leaves of the secrets, whichever way the bindings are listed.
use victoria.Prelude.{
  ◌≡◌, refl, sym, ap, ◌∙◌, arith, Bool, true, false, List, [], ◌∷◌, String, ◌==◌, ◌&&◌, ◌||◌, not,
  if◌then◌else◌, Bool-cases, inl, inr,
}
use victoria.Exec.{ok, err, failed}
use victoria.GoMap.{select}
use victoria.Domain.{ChannelBinding}
use victoria.App.Helpers.{normalize_whatsapp_jid, contains}
use victoria.Whatsapp.Sweep.{
  Secret, device_of, kept_from, keep_of, is_unreadable, purge_for_device, is_swept, sweep_bindings,
  sweep_now,
}

module _ {ℓ} {A : Type ℓ} where
  select-select :
      (p q : A → Bool) (xs : List A) → select q (select p xs) ≡ select (λ x. p x && q x) xs
  unfolding select
  select-select p q [] = refl
  select-select p q (x ∷ xs) = ground (arith, select-select p q xs)

  select-true : (xs : List A) → select (λ _. true) xs ≡ xs
  unfolding select
  select-true [] = refl
  select-true (x ∷ xs) = rw (select-true xs)

  select-same : (p q : A → Bool) → ((x : A) → p x ≡ q x) → (xs : List A) → select p xs ≡ select q xs
  unfolding select
  select-same p q h [] = refl
  select-same p q h (x ∷ xs) = rw (h x, select-same p q h xs) refl

-- the address of the operator, or of the provider where the operator's is blank
abbrev pub own_address : ChannelBinding → String
own_address b =
    if normalize_whatsapp_jid b.operator_jid == ""
    then normalize_whatsapp_jid b.provider_number
    else normalize_whatsapp_jid b.operator_jid

-- the chat is that of a customer of the list
abbrev pub is_listed : List String → String → Bool
is_listed [] chat = false
is_listed (j ∷ js) chat =
    not (normalize_whatsapp_jid j == "") && normalize_whatsapp_jid j == chat || is_listed js chat

contains-kept_from :
    (js : List String) (chat : String) → contains (kept_from js) chat ≡ is_listed js chat
unfolding contains kept_from
contains-kept_from [] chat = refl
contains-kept_from (j ∷ js) chat = elim (Bool-cases (normalize_whatsapp_jid j == "")) [
  | inl e ↦ rw e (contains-kept_from js chat)
  | inr e ↦ rw (e, contains-kept_from js chat)
]

-- every WhatsApp binding has its columns
abbrev pub all_readable : List ChannelBinding → Bool
all_readable [] = true
all_readable (b ∷ bs) =
    not (b.channel == "whatsapp" && (b.inbound_mode == "" || b.operator_jid == ""))
    && all_readable bs

module _ (refuses : String → Bool) where
  -- the binding has the row deleted: it is read-only and has an address, the database does not
  -- refuse, and the row is of that address and of a chat that is neither its own nor listed
  abbrev pub deletes : ChannelBinding → Secret → Bool
  deletes b r =
      b.inbound_mode == "read_only"
      && (not (own_address b == "")
          && (not (refuses (own_address b))
              && (r.our_jid == own_address b
                  && not
                      (own_address b == r.chat_jid || is_listed b.customer_allowlist r.chat_jid))))

  -- no WhatsApp binding has the row deleted, up to the first one with a missing column
  abbrev pub spared : List ChannelBinding → Secret → Bool
  spared [] r = true
  spared (b ∷ bs) r =
      if b.channel == "whatsapp"
      then (if b.inbound_mode == "" || b.operator_jid == ""
          then true
          else not (deletes b r) && spared bs r)
      else spared bs r

  purge-eq-select :
      (b : ChannelBinding) (rows : List Secret)
      → (if is_swept b && not (refuses (device_of b))
          then purge_for_device (device_of b) (keep_of b) rows
          else rows)
        ≡ select (λ r. not (deletes b r)) rows
  unfolding is_swept device_of keep_of purge_for_device contains
  purge-eq-select b rows = elim (Bool-cases (b.inbound_mode == "read_only")) [
    | inr e ↦ rw e (sym (select-same _ (λ _. true) (λ r. refl) rows ∙ select-true rows))
    | inl e ↦ elim (Bool-cases (own_address b == "")) [
      | inl n ↦ rw (e, n) (sym (select-same _ (λ _. true) (λ r. refl) rows ∙ select-true rows))
      | inr n ↦ elim (Bool-cases (refuses (own_address b))) [
        | inl f ↦ rw (e, n, f) (sym (select-same _ (λ _. true) (λ r. refl) rows ∙ select-true rows))
        | inr f ↦
            rw (e, n, f)
              (select-same _ _ (λ r. rw (contains-kept_from b.customer_allowlist r.chat_jid) refl)
                rows)
      ]
    ]
  ]

  -- A sweep leaves exactly the rows that no WhatsApp binding has deleted, and it fails where one of
  -- them has no mode or no operator address in its stored form; the bindings listed behind that one
  -- then delete nothing. A binding has those rows deleted that are of its own address, that is the
  -- operator's or else the provider's, and of a chat that is neither that address nor in the
  -- allowlist, provided that it is read-only, that it has an address and that the database does not
  -- refuse.
  pub sweep_now-eq-select :
      (bindings : List ChannelBinding) (rows : List Secret)
      → sweep_now refuses bindings rows
        ≡ (if all_readable bindings then ok tt else err failed, select (spared bindings) rows)
  unfolding sweep_now sweep_bindings select is_unreadable
  sweep_now-eq-select [] rows = ap (λ rs. (ok tt, rs)) (sym (select-true rows))
  sweep_now-eq-select (b ∷ bs) rows = elim (Bool-cases (b.channel == "whatsapp")) [
    | inr e ↦ rw e (
        sweep_now-eq-select bs rows
        ∙ ap (λ rs. (if all_readable bs then ok tt else err failed, rs))
            (select-same _ _ (λ r. rw e refl) rows))
    | inl e ↦ elim (Bool-cases (b.inbound_mode == "" || b.operator_jid == "")) [
      | inl u ↦
          rw (e, u)
            (ap (λ rs. (err failed, rs))
              (sym (select-same _ (λ _. true) (λ r. rw (e, u) refl) rows ∙ select-true rows)))
      | inr u ↦
          rw (e, u, purge-eq-select b rows)
            (sweep_now-eq-select bs (select (λ r. not (deletes b r)) rows)
              ∙ ap (λ rs. (if all_readable bs then ok tt else err failed, rs))
                  (select-select (λ r. not (deletes b r)) (spared bs) rows
                    ∙ select-same _ _ (λ r. rw (e, u) refl) rows))
    ]
  ]
