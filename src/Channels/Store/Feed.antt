-- ===== src/Channels/Store/Feed.antt =====
-- What accepting a page of posts does: a post is taken once, and one that is new is delivered to the
-- subscribers that may have it.
use codegen_product_kit.Base.{
  ℕ, ◌+◌, ◌≡◌, refl, String, Bool, true, false, ◌||◌, ◌&&◌, not, Option, none, some, List, [], ◌∷◌,
  ◌++◌, map, if◌then◌else◌, ◌==◌, str_eq, eq_iff, ltb, arith, is_some, Bool-cases, inl, inr, ◌∙◌,
  All, All-map, ap, sym,
}
use codegen_product_kit.Base.Dict.{Dict, lookup}
use codegen_product_kit.Base.Sorting.{any, any-append, select, sort_by}
use codegen_product_kit.Channels.Store.{
  Post, Delivery, new_delivery, Tables, Library, event_id_of, deliver_each, is_seen, accept_post,
  accept_posts, accept_page, accept_for, by_seq, subscription_slack,
}

seen-append :
    (p q : Post) (l : List (String × ℕ))
    → is_seen q (l ++ (p.channel, p.id) ∷ [])
      ≡ (is_seen q l || (str_eq p.channel q.channel && p.id == q.id))
seen-append p q [] = ground arith
seen-append p q (s ∷ l) = ground (arith, seen-append p q l)

module _ (lib : Library) (at : ℕ) where
  seen_kept :
      (p q : Post) (users : Option (Dict ℕ)) (db : Tables)
      → is_seen q db.seen_posts ≡ true
      → is_seen q (accept_for lib at p users db).seen_posts ≡ true
  unfolding accept_post
  seen_kept p q none db h = h
  seen_kept p q (some users) db h = ground (arith, seen-append p q db.seen_posts)

  seen_all :
      (subscribers : Dict (Dict ℕ)) (q : Post) (ps : List Post) (db : Tables)
      → is_seen q db.seen_posts ≡ true
      → is_seen q (accept_posts lib at subscribers ps db).seen_posts ≡ true
  unfolding accept_posts
  seen_all subscribers q [] db h = h
  seen_all subscribers q (p ∷ ps) db h =
      seen_all subscribers q ps (accept_for lib at p (lookup p.channel subscribers) db)
        (seen_kept p q (lookup p.channel subscribers) db h)

  seen_now :
      (p : Post) (users : Dict ℕ) (db : Tables)
      → is_seen p (accept_post lib at p users db).seen_posts ≡ true
  unfolding accept_post
  seen_now p users db = ground (arith, seen-append p p db.seen_posts, eq_iff p.channel p.channel)

  -- The posts of subscribed channels are seen once a page is accepted.
  accept_posts-seen :
      (subscribers : Dict (Dict ℕ)) (ps : List Post) (db : Tables)
      → All
          (λ (p : Post).
            is_some (lookup p.channel subscribers) ≡ true
            → is_seen p (accept_posts lib at subscribers ps db).seen_posts ≡ true)
          ps
  unfolding accept_posts
  accept_posts-seen subscribers [] db = tt
  accept_posts-seen subscribers (p ∷ ps) db =
      let db' = accept_for lib at p (lookup p.channel subscribers) db in
      (
        λ h. seen_all subscribers p ps db' (taken p (lookup p.channel subscribers) db h),
        accept_posts-seen subscribers ps db',
      )
    where
      taken :
          (q : Post) (users : Option (Dict ℕ)) (d : Tables)
          → is_some users ≡ true
          → is_seen q (accept_for lib at q users d).seen_posts ≡ true
      taken q none d h = absurd cc
      taken q (some users) d h = seen_now q users d

accept_post-seen :
    (lib : Library) (at : ℕ) (p : Post) (users : Dict ℕ) (db : Tables)
    → is_seen p db.seen_posts ≡ true
    → accept_post lib at p users db ≡ db
unfolding accept_post
accept_post-seen lib at p users db e = rw e refl

-- Posts that are seen, or of channels without subscribers, change nothing.
accept_posts-same :
    (lib : Library) (at : ℕ) (subscribers : Dict (Dict ℕ)) (ps : List Post) (db : Tables)
    → All
        (λ (p : Post).
          is_some (lookup p.channel subscribers) ≡ true → is_seen p db.seen_posts ≡ true)
        ps
    → accept_posts lib at subscribers ps db ≡ db
unfolding accept_posts
accept_posts-same lib at subscribers [] db h = refl
accept_posts-same lib at subscribers (p ∷ ps) db h =
    ap (accept_posts lib at subscribers ps) (kept (lookup p.channel subscribers) h.0)
    ∙ accept_posts-same lib at subscribers ps db h.1
  where
    kept :
        (users : Option (Dict ℕ))
        → (is_some users ≡ true → is_seen p db.seen_posts ≡ true)
        → accept_for lib at p users db ≡ db
    kept none k = refl
    kept (some users) k = accept_post-seen lib at p users db (k refl)

-- A page that comes again, at any time, to subscribers of the same channels or fewer, changes nothing.
pub accept_page_again :
    (lib : Library) (at at' : ℕ) (subscribers subscribers' : Dict (Dict ℕ)) (items : List Post)
    (db : Tables)
    → ((c : String)
        → is_some (lookup c subscribers') ≡ true
        → is_some (lookup c subscribers) ≡ true)
    → accept_page lib at' subscribers' items (accept_page lib at subscribers items db)
      ≡ accept_page lib at subscribers items db
unfolding accept_page
accept_page_again lib at at' subscribers subscribers' items db sub =
    accept_posts-same lib at' subscribers' (sort_by by_seq items)
      (accept_page lib at subscribers items db)
      (All-map _ _ (λ p f h. f (sub p.channel h)) (sort_by by_seq items)
        (accept_posts-seen lib at subscribers (sort_by by_seq items) db))

-- The post is not older than the subscription by more than the slack.
abbrev pub is_eligible : Post → String × ℕ → Bool
is_eligible p e = not (ltb (p.date + subscription_slack) e.1)

-- No two subscribers have the same event id for the post.
abbrev pub EventsDistinct : Library → Post → Dict ℕ → Type 0
EventsDistinct lib p [] = Unit
EventsDistinct lib p (e ∷ us) =
    All (λ f. (event_id_of lib p e.0 == event_id_of lib p f.0) ≡ false) us × EventsDistinct lib p us

abbrev pub has_event : ℕ → List Delivery → Bool
has_event i l = any (λ d. d.event_id == i) l

abbrev pub EventsNew : Library → Post → List Delivery → Dict ℕ → Type 0
EventsNew lib p l us = All (λ e. has_event (event_id_of lib p e.0) l ≡ false) us

append-EventsNew :
    (lib : Library) (at : ℕ) (p : Post) (u : String) (l : List Delivery) (us : Dict ℕ)
    → All (λ f. (event_id_of lib p u == event_id_of lib p f.0) ≡ false) us
    → EventsNew lib p l us
    → EventsNew lib p (l ++ new_delivery lib at p u ∷ []) us
append-EventsNew lib at p u l [] d n = tt
append-EventsNew lib at p u l (f ∷ us) d n = (
  ground (
    arith,
    any-append (λ x. x.event_id == event_id_of lib p f.0) l (new_delivery lib at p u ∷ []),
  ),
  append-EventsNew lib at p u l us d.1 n.1,
)

append_cons : {A : Type 0} (x : A) (l r : List A) → (l ++ x ∷ []) ++ r ≡ l ++ x ∷ r
append_cons x [] r = refl
append_cons x (y ∷ l) r = ap (λ t. y ∷ t) (append_cons x l r)

append_nil : {A : Type 0} (l : List A) → l ++ [] ≡ l
append_nil [] = refl
append_nil (x ∷ l) = ap (λ t. x ∷ t) (append_nil l)

deliver_each_lem :
    (lib : Library) (at : ℕ) (p : Post) (us : Dict ℕ) (l : List Delivery)
    → EventsDistinct lib p us
    → EventsNew lib p l us
    → deliver_each lib at p us l
      ≡ l ++ map (λ e. new_delivery lib at p e.0) (select (is_eligible p) us)
unfolding deliver_each
deliver_each_lem lib at p [] l d n = sym (append_nil l)
deliver_each_lem lib at p ((u, t) ∷ us) l d n =
    elim (Bool-cases (ltb (p.date + subscription_slack) t)) [
      | inl late ↦ rw late (deliver_each_lem lib at p us l d.1 n.1)
      | inr ok ↦
          rw (ok, n.0)
            (deliver_each_lem lib at p us (l ++ new_delivery lib at p u ∷ []) d.1
                (append-EventsNew lib at p u l us d.0 n.1)
              ∙ append_cons (new_delivery lib at p u) l
                  (map (λ e. new_delivery lib at p e.0) (select (is_eligible p) us)))
    ]

-- A post that is new, with event ids that are new and distinct, is marked as seen and, unless it is
-- deleted, delivered once to each subscriber whose subscription is not later than the post by more than
-- the slack, and to nobody else.
pub accept_post_lem :
    (lib : Library) (at : ℕ) (p : Post) (users : Dict ℕ) (db : Tables)
    → is_seen p db.seen_posts ≡ false
    → EventsDistinct lib p users
    → EventsNew lib p db.deliveries users
    → accept_post lib at p users db ≡ record db {
      seen_posts = db.seen_posts ++ (p.channel, p.id) ∷ [];
      deliveries =
          if p.deleted
          then db.deliveries
          else db.deliveries ++ map (λ e. new_delivery lib at p e.0) (select (is_eligible p) users);
    }
unfolding accept_post
accept_post_lem lib at p users db s d n =
    rw (s, deliver_each_lem lib at p users db.deliveries d n) refl
