-- ===== src/AuditService/Paging.antt =====
-- What a page of a query holds, and what the pages hold together.
use accelerator_pack_auth_se.Prelude.{
  ℕ, zero, suc, ◌*◌, ◌≤◌, List, [], ◌++◌, ◌≡◌, sym, ap, ◌∙◌, true, Result, ok, arith, length, take,
  select, ◌>>=◌, ok-injective, Bool-cases, inl, inr,
}
use accelerator_pack_auth_se.Table.{order_desc}
use accelerator_pack_auth_se.Table.Laws.{length-order_desc}
use accelerator_pack_auth_se.Table.Ordering.{take-add, take_all}
use accelerator_pack_auth_se.Table.Orders.{IsOrderBy, IsDistinct, IsOrderBy-order_desc}
use accelerator_pack_auth_se.Models.{Time}
use accelerator_pack_auth_se.Models.Rows.{AuditLog}
use accelerator_pack_auth_se.AuditService.{
  Logs, AuditFilter, matches, is_bindable, query_audit_logs,
}

abbrev pub instant : AuditLog → Time
instant log = log.timestamp

-- All logs that match, the newest first.
abbrev pub newest_first : AuditFilter → Logs → List AuditLog
newest_first f t = order_desc instant (select (matches f) t.rows)

-- The first `n` pages, one after the other; each query has an order of its own.
unfoldable pub pages :
    (ℕ → List AuditLog → List AuditLog) → AuditFilter → ℕ → ℕ → Logs → Result (List AuditLog)
pages sorts f limit zero t = ok []
pages sorts f limit (suc n) t = pages sorts f limit n t >>= λ earlier.
    query_audit_logs (sorts n) f (n * limit) limit t >>= λ page. ok (earlier ++ page.0)

module _ (sorts : ℕ → List AuditLog → List AuditLog) (f : AuditFilter) (limit : ℕ) (t : Logs) where
  pages-take :
      (n : ℕ)
      → ((k : ℕ) → sorts k (select (matches f) t.rows) ≡ newest_first f t)
      → is_bindable f.result_filter ≡ true
      → pages sorts f limit n t ≡ ok (take (n * limit) (newest_first f t))
  unfolding pages query_audit_logs
  pages-take zero one bindable =
      ap (λ k. ok (take k (newest_first f t))) {x = 0} {y = 0 * limit} (omega arith)
  pages-take (suc n) one bindable =
      rw (pages-take n one bindable, bindable, one n)
        (ap ok (
          sym (take-add (n * limit) limit (newest_first f t))
          ∙ ap (λ k. take k (newest_first f t)) (grind arith)))

  bound :
      (page : List AuditLog) (total : ℕ)
      → query_audit_logs (sorts 0) f 0 limit t ≡ ok (page, total)
      → (is_bindable f.result_filter ≡ true) × (total ≡ length (select (matches f) t.rows))
  unfolding query_audit_logs
  bound page total h = elim (Bool-cases (is_bindable f.result_filter)) [
    | inl e ↦ (e, sym (ap (λ r. r.1) (ok-injective _ _ (rw e at h))))
    | inr e ↦ absurd (cc (rw e at h))
  ]

  -- Where no two logs that match have one instant, the pages of a query one after the other are all
  -- logs that match, the newest first, and no log is missing or comes twice, whatever order the
  -- database chooses for each of the queries where SQL leaves it open. As many pages are enough as
  -- cover the total that the first page reports, and they hold as many logs.
  pub query_audit_logs-pages :
      (n : ℕ) (page : List AuditLog) (total : ℕ)
      → ((k : ℕ) → IsOrderBy instant (sorts k))
      → IsDistinct instant (select (matches f) t.rows)
      → query_audit_logs (sorts 0) f 0 limit t ≡ ok (page, total)
      → total ≤ n * limit
      → (pages sorts f limit n t ≡ ok (newest_first f t)) × (length (newest_first f t) ≡ total)
  query_audit_logs-pages n page total law distinct first enough =
      let (bindable, counted) = bound page total first in
      let len = length-order_desc instant (select (matches f) t.rows) in
      (
        pages-take n
              (λ k.
                IsOrderBy-order_desc instant (sorts k) (select (matches f) t.rows) (law k) distinct)
              bindable
            ∙ ap ok (take_all (n * limit) (newest_first f t) (omega arith)),
        len ∙ sym counted,
      )
