-- ===== src/Tasks/Notifications/Recipients.antt =====
-- Who is written to about an alert.
use Prim.Native.String.{String, ◌++◌}
use inventory_management_api.Base.{
  ⊤, ◌≡◌, refl, ◌∙◌, ◌⊎◌, inl, inr, none, some, List, [], ◌∷◌, map, arith, true, false,
  if◌then◌else◌, Bool-cases, Option-cases,
}
use inventory_management_api.Base.Rows.{find?}
use inventory_management_api.Base.Pages.{Picks, keep-Picks}
use inventory_management_api.Errors.{app, not_found, smtp_exception, Result, ok, err}
use inventory_management_api.Models.{
  Uuid, AlertType, type_eq, Alert, Product, Warehouse, User, Tables,
}
use inventory_management_api.Session.{Env, World, begin, close, with_session, select, pure, ◌>>=◌}
use inventory_management_api.Session.Ends.{bind-ok, bind-err}
use inventory_management_api.Repositories.Base.{has_id, get_by_id_or_raise}
use inventory_management_api.Repositories.Base.Lookup.{get_or_raise_found, get_or_raise_missing}
use inventory_management_api.Repositories.Alerts.{alert_model}
use inventory_management_api.Repositories.Catalog.{product_model, warehouse_model}
use inventory_management_api.Repositories.Users.{is_active_superuser, list_active_superusers}
use inventory_management_api.Websockets.Listeners.{Texts}
use inventory_management_api.Core.Email.{Mailing, Mail, Post, send_email}
use inventory_management_api.Tasks.Notifications.{
  Context, alert_type_value, build_subject, build_body, mail_to, notify, load_context,
  send_low_stock_alert_email,
}

module _ ⦃env : Env⦄ where
  -- The active superusers: their addresses, in some order.
  abbrev pub Addresses : Tables → List String → Type 0
  Addresses t to =
      (users : List User) × (Picks (λ (u : User). (u.is_superuser ≡ true) × (u.is_active ≡ true))
          (λ (u : User). (u.is_superuser ≡ false) ⊎ (u.is_active ≡ false)) t.users users
        × (to ≡ map (λ (u : User). u.email) users))

  -- What is loaded about an alert is what is committed.
  pub record IsAbout (alert_id : Uuid) (t : Tables) (c : Context) : Type 0 where
    pub alert : find? (has_id alert_model alert_id) t.alerts ≡ some c.alert
    pub product : find? (has_id product_model c.alert.product_id) t.products ≡ some c.product
    pub warehouse :
        find? (has_id warehouse_model c.alert.warehouse_id) t.warehouses ≡ some c.warehouse
    pub recipients : Addresses t c.recipients

  -- The alert, or its product or warehouse, is not there.
  pub record IsDangling (alert_id : Uuid) (t : Tables) : Type 0 where
    pub cause :
        (find? (has_id alert_model alert_id) t.alerts ≡ none)
        ⊎ ((a : Alert) × ((find? (has_id alert_model alert_id) t.alerts ≡ some a)
              × ((find? (has_id product_model a.product_id) t.products ≡ none)
                  ⊎ (find? (has_id warehouse_model a.warehouse_id) t.warehouses ≡ none))))

  superuser_lem :
      (u : User) → is_active_superuser u ≡ true → (u.is_superuser ≡ true) × (u.is_active ≡ true)
  superuser_lem u h = elim (Bool-cases u.is_superuser) [
    | inl y ↦ (y, ground (arith, h, y))
    | inr n ↦ absurd (ground (arith, h, n))
  ]

  other_lem :
      (u : User) → is_active_superuser u ≡ false → (u.is_superuser ≡ false) ⊎ (u.is_active ≡ false)
  other_lem u h = elim (Bool-cases u.is_superuser) [
    | inl y ↦ inr (ground (arith, h, y))
    | inr n ↦ inl n
  ]

  select-Addresses :
      (t : Tables) → Addresses t (map (λ (u : User). u.email) (select is_active_superuser t.users))
  select-Addresses t = (
    select is_active_superuser t.users,
    (
      keep-Picks is_active_superuser _ _ superuser_lem other_lem t.users _
          (env.select_perm User is_active_superuser t.users),
      refl,
    ),
  )

  abbrev loaded : Alert → Product → Warehouse → World → Context
  loaded a p w s = record {
    alert = a;
    product = p;
    warehouse = w;
    recipients = map (λ (u : User). u.email) (select is_active_superuser s.session.users);
  }

  superusers_lem :
      (a : Alert) (p : Product) (w : Warehouse) (s : World)
      → (list_active_superusers >>= λ superusers. pure (record {
        alert = a;
        product = p;
        warehouse = w;
        recipients = map (λ (u : User). u.email) superusers;
      }))
          s
        ≡ (ok (loaded a p w s), s)
  unfolding list_active_superusers ◌>>=◌
  superusers_lem a p w s = refl

  load_context-cases :
      (alert_id : Uuid) (s : World)
      → ((c : Context) × ((load_context alert_id s ≡ (ok c, s)) × IsAbout alert_id s.session c))
        ⊎ ((load_context alert_id s ≡ (err (app not_found), s)) × IsDangling alert_id s.session)
  unfolding load_context
  load_context-cases alert_id s =
      elim (Option-cases (find? (has_id alert_model alert_id) s.session.alerts)) [
        | inl h ↦ inr (
          bind-err (get_by_id_or_raise alert_model alert_id) _ s _ s
              (get_or_raise_missing alert_model alert_id s h),
          record { cause = inl h },
        )
        | inr (a, h) ↦
            let first =
              bind-ok (get_by_id_or_raise alert_model alert_id) _ s a s
                (get_or_raise_found alert_model alert_id s a h) in
            elim (Option-cases (find? (has_id product_model a.product_id) s.session.products)) [
              | inl g ↦ inr (
                first
                    ∙ bind-err (get_by_id_or_raise product_model a.product_id) _ s _ s
                        (get_or_raise_missing product_model a.product_id s g),
                record { cause = inr (a, (h, inl g)) },
              )
              | inr (p, g) ↦
                  let second =
                    first
                    ∙ bind-ok (get_by_id_or_raise product_model a.product_id) _ s p s
                        (get_or_raise_found product_model a.product_id s p g) in
                  elim (Option-cases
                    (find? (has_id warehouse_model a.warehouse_id) s.session.warehouses)) [
                      | inl f ↦ inr (
                        second
                            ∙ bind-err (get_by_id_or_raise warehouse_model a.warehouse_id) _ s _ s
                                (get_or_raise_missing warehouse_model a.warehouse_id s f),
                        record { cause = inr (a, (h, inr f)) },
                      )
                      | inr (w, f) ↦ inl (
                        loaded a p w s,
                        (
                          second
                              ∙ bind-ok (get_by_id_or_raise warehouse_model a.warehouse_id) _ s w s
                                  (get_or_raise_found warehouse_model a.warehouse_id s w f)
                              ∙ superusers_lem a p w s,
                          record {
                            alert = h;
                            product = g;
                            warehouse = f;
                            recipients = select-Addresses s.session;
                          },
                        ),
                      )
                    ]
            ]
      ]

  -- The line that names the kind of an alert in the subject, and in the body.
  pub record IsLabel (ty : AlertType) (title label : String) : Type 0 where
    pub low_stock : ty ≡ AlertType.low_stock → (title ≡ "Low Stock") × (label ≡ "low_stock")
    pub out_of_stock :
        ty ≡ AlertType.out_of_stock → (title ≡ "OUT OF STOCK") × (label ≡ "out_of_stock")

  -- The mail about an alert: the subject names its kind and its product, and the body its kind, its
  -- product, its warehouse, its figures and its time.
  pub record IsMail ⦃mailing : Mailing⦄ ⦃texts : Texts⦄ (to : List String) (c : Context) (m : Mail)
      : Type 0 where
    pub addressed : m.to ≡ to
    pub text :
        (title : String) × ((label : String) × (IsLabel c.alert.alert_type title label
            × ((m.subject ≡ "[Inventory Alert] " ++ title ++ ": " ++ c.product.name)
                × (m.body
                    ≡ "Product: "
                      ++ c.product.name
                      ++ "\nWarehouse: "
                      ++ c.warehouse.name
                      ++ "\nAlert type: "
                      ++ label
                      ++ "\nCurrent quantity: "
                      ++ mailing.str_int c.alert.quantity_at_trigger
                      ++ "\nThreshold: "
                      ++ mailing.str_int c.alert.threshold
                      ++ "\nTriggered at: "
                      ++ texts.isoformat (mailing.created_at c.alert)
                      ++ "\n"))))

  -- What one run of the task has done: it has written to nobody, for want of a superuser; or it has
  -- handed one mail to the server; or it has raised.
  pub record Ran ⦃mailing : Mailing⦄ ⦃texts : Texts⦄ (alert_id : Uuid) (p : Post)
      (answer : Result ⊤) (p' : Post) : Type 0 where
    pub outcome :
        ((answer ≡ err (app not_found))
          × ((p'.outbox ≡ p.outbox) × IsDangling alert_id p.world.committed))
        ⊎ ((c : Context) × (IsAbout alert_id p.world.committed c
              × (((answer ≡ ok tt) × ((p'.outbox ≡ p.outbox) × (c.recipients ≡ [])))
                  ⊎ (((answer ≡ err smtp_exception)
                        × ((p'.outbox ≡ p.outbox) × (mailing.smtp_accepts p.exchanges ≡ false)))
                      ⊎ ((answer ≡ ok tt)
                          × ((m : Mail) × (IsMail c.recipients c m
                                × (p'.outbox ≡ m ∷ p.outbox))))))))
    pub world : p'.world ≡ begin p.world

  module _ ⦃mailing : Mailing⦄ ⦃texts : Texts⦄ where
    title_of : AlertType → String
    title_of ty = if type_eq ty AlertType.out_of_stock then "OUT OF STOCK" else "Low Stock"

    title_of-IsLabel : (ty : AlertType) → IsLabel ty (title_of ty) (alert_type_value ty)
    unfolding title_of
    title_of-IsLabel AlertType.low_stock = record {
      low_stock = λ e. (refl, refl);
      out_of_stock = λ e. absurd (cc e);
    }
    title_of-IsLabel AlertType.out_of_stock = record {
      low_stock = λ e. absurd (cc e);
      out_of_stock = λ e. (refl, refl);
    }

    written-IsMail :
        (to : List String) (c : Context)
        → IsMail to c (record {
          to = to;
          subject = build_subject c.alert c.product.name;
          body = build_body c.alert c.product.name c.warehouse.name;
        })
    unfolding build_subject build_body title_of
    written-IsMail to c = record {
      addressed = refl;
      text = (
        title_of c.alert.alert_type,
        (alert_type_value c.alert.alert_type, (title_of-IsLabel c.alert.alert_type, (refl, refl))),
      );
    }

    mail_to-cases :
        (to : List String) (c : Context) (q : Post)
        → ((((mail_to to c q).0 ≡ ok tt) × (((mail_to to c q).1.outbox ≡ q.outbox) × (to ≡ [])))
            ⊎ ((((mail_to to c q).0 ≡ err smtp_exception)
                  × (((mail_to to c q).1.outbox ≡ q.outbox)
                      × (mailing.smtp_accepts q.exchanges ≡ false)))
                ⊎ (((mail_to to c q).0 ≡ ok tt)
                    × ((m : Mail) × (IsMail to c m × ((mail_to to c q).1.outbox ≡ m ∷ q.outbox))))))
          × ((mail_to to c q).1.world ≡ q.world)
    unfolding send_email
    mail_to-cases [] c q = (inl (refl, (refl, refl)), refl)
    mail_to-cases (x ∷ xs) c q = elim (Bool-cases (mailing.smtp_accepts q.exchanges)) [
      | inl y ↦ rw y (inr (inr (refl, (_, (written-IsMail (x ∷ xs) c, refl)))), refl)
      | inr n ↦ rw n (inr (inl (refl, (refl, refl))), refl)
    ]

    -- A run of the task that returns has handed the server one mail, to all active superusers and about
    -- the committed alert, with its kind, product, warehouse and figures, or none, if there is no active
    -- superuser. It raises, and hands over none, just where the alert or its product or warehouse is missing or the
    -- server refuses. Nothing is committed.
    pub send_low_stock_alert_email-Ran :
        (alert_id : Uuid) (p : Post)
        → Ran alert_id p
            (send_low_stock_alert_email alert_id p).0
            (send_low_stock_alert_email alert_id p).1
    unfolding send_low_stock_alert_email with_session
    send_low_stock_alert_email-Ran alert_id p = elim (load_context-cases alert_id (begin p.world)) [
      | inr (raised, dangling) ↦
          rw raised (record { outcome = inl (refl, (refl, dangling)); world = refl })
      | inl (c, (run, about)) ↦ rw run (mailed c about)
    ]
      where
        mailed :
            (c : Context)
            → IsAbout alert_id p.world.committed c
            → Ran alert_id p
                (notify (close (ok c, begin p.world)) p).0
                (notify (close (ok c, begin p.world)) p).1
        mailed c about =
            let (sent, same) = mail_to-cases c.recipients c (record p { world = begin p.world }) in
            record { outcome = inr (c, (about, sent)); world = same }
