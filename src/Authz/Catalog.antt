-- ===== src/Authz/Catalog.antt =====
-- app/core/permissions_catalog.json: the composite roles and the permissions that each carries, as
-- app/core/dependencies.py loads them.
use Prim.Native.String.{String}
use mathlib.Core.List.{List, [], ◌∷◌}

unfoldable pub permissions_catalog : List (String × List String)
permissions_catalog =
    (
      "admin",
      "announcement:manage" ∷ "audit:view" ∷ "billing:audit" ∷ "billing:invoice"
          ∷ "billing:view_payment" ∷ "class:assign_teacher" ∷ "class:create" ∷ "class:edit"
          ∷ "class:read" ∷ "class:update" ∷ "enrollment:cancel" ∷ "enrollment:read"
          ∷ "enrollment:teacher_approve" ∷ "enrollment:view_roster" ∷ "event:archive"
          ∷ "event:audience_edit" ∷ "event:audience_predict" ∷ "event:clone" ∷ "event:create"
          ∷ "event:delete" ∷ "event:edit" ∷ "event:patch" ∷ "event:propose" ∷ "event:publish"
          ∷ "event:read" ∷ "event:review" ∷ "event:submit" ∷ "event:view" ∷ "event:view_draft"
          ∷ "feedback:view" ∷ "health:manage" ∷ "health:view" ∷ "level:create" ∷ "level:manage"
          ∷ "level:read" ∷ "notification:mark_read" ∷ "notification:read" ∷ "notification:send"
          ∷ "parent:read" ∷ "report:view" ∷ "resource:create" ∷ "resource:delete" ∷ "resource:edit"
          ∷ "resource:price" ∷ "resource:read" ∷ "resource:set_cost" ∷ "resource:update"
          ∷ "resource:view" ∷ "resource_type:create" ∷ "resource_type:read" ∷ "safety:manage"
          ∷ "school:read" ∷ "school:write" ∷ "student:create" ∷ "student:read" ∷ "subsidy:manage"
          ∷ "teacher:create" ∷ "teacher:read" ∷ "teacher:write" ∷ "user:create" ∷ "user:delete"
          ∷ "user:invite" ∷ "user:link" ∷ "user:profile_edit" ∷ "user:profile_read" ∷ "user:read"
          ∷ "user:view" ∷ [],
    )
    ∷ (
      "manager",
      "announcement:manage" ∷ "billing:audit" ∷ "billing:invoice" ∷ "billing:pay" ∷ "billing:refund"
          ∷ "billing:view_payment" ∷ "class:assign_teacher" ∷ "class:create" ∷ "class:edit"
          ∷ "class:read" ∷ "class:update" ∷ "enrollment:read" ∷ "enrollment:view_roster"
          ∷ "event:audience_predict" ∷ "event:publish" ∷ "event:read" ∷ "event:review"
          ∷ "event:view" ∷ "event:view_draft" ∷ "feedback:view" ∷ "level:create" ∷ "level:manage"
          ∷ "level:read" ∷ "notification:mark_read" ∷ "notification:read" ∷ "notification:send"
          ∷ "parent:read" ∷ "resource:price" ∷ "resource:read" ∷ "resource:set_cost"
          ∷ "resource:view" ∷ "resource_type:read" ∷ "school:read" ∷ "student:read"
          ∷ "subsidy:manage" ∷ "teacher:read" ∷ "user:create" ∷ "user:profile_edit"
          ∷ "user:profile_read" ∷ "user:read" ∷ "user:view" ∷ [],
    )
    ∷ (
      "parent",
      "billing:pay" ∷ "billing:view_payment" ∷ "enrollment:cancel" ∷ "enrollment:parent_approve"
          ∷ "enrollment:read" ∷ "event:read" ∷ "event:view" ∷ "family:overview_read"
          ∷ "feedback:create" ∷ "health:manage_child" ∷ "notification:mark_read"
          ∷ "notification:read" ∷ "school:read" ∷ "student:view_linked" ∷ "user:profile_edit"
          ∷ "user:profile_read" ∷ [],
    )
    ∷ (
      "school_admin",
      "announcement:manage" ∷ "audit:view" ∷ "billing:audit" ∷ "billing:invoice"
          ∷ "billing:view_payment" ∷ "class:assign_teacher" ∷ "class:create" ∷ "class:edit"
          ∷ "class:read" ∷ "class:update" ∷ "enrollment:cancel" ∷ "enrollment:read"
          ∷ "enrollment:teacher_approve" ∷ "enrollment:view_roster" ∷ "event:archive"
          ∷ "event:audience_edit" ∷ "event:audience_predict" ∷ "event:clone" ∷ "event:create"
          ∷ "event:delete" ∷ "event:edit" ∷ "event:patch" ∷ "event:propose" ∷ "event:publish"
          ∷ "event:read" ∷ "event:review" ∷ "event:submit" ∷ "event:view" ∷ "event:view_draft"
          ∷ "feedback:view" ∷ "health:manage" ∷ "health:view" ∷ "level:create" ∷ "level:manage"
          ∷ "level:read" ∷ "notification:mark_read" ∷ "notification:read" ∷ "notification:send"
          ∷ "parent:read" ∷ "report:view" ∷ "resource:create" ∷ "resource:delete" ∷ "resource:edit"
          ∷ "resource:price" ∷ "resource:read" ∷ "resource:set_cost" ∷ "resource:update"
          ∷ "resource:view" ∷ "resource_type:create" ∷ "resource_type:read" ∷ "safety:manage"
          ∷ "school:read" ∷ "school:write" ∷ "student:create" ∷ "student:read" ∷ "subsidy:manage"
          ∷ "teacher:create" ∷ "teacher:read" ∷ "teacher:write" ∷ "user:create" ∷ "user:delete"
          ∷ "user:invite" ∷ "user:link" ∷ "user:profile_edit" ∷ "user:profile_read" ∷ "user:read"
          ∷ "user:view" ∷ [],
    )
    ∷ (
      "student",
      "enrollment:read" ∷ "enrollment:request" ∷ "event:read" ∷ "event:view" ∷ "feedback:create"
          ∷ "notification:mark_read" ∷ "notification:read" ∷ "school:read" ∷ "user:profile_edit"
          ∷ "user:profile_read" ∷ [],
    )
    ∷ ("super_admin", "*" ∷ [])
    ∷ (
      "teacher",
      "class:read" ∷ "enrollment:read" ∷ "enrollment:teacher_approve" ∷ "enrollment:view_roster"
          ∷ "event:audience_edit" ∷ "event:audience_predict" ∷ "event:clone" ∷ "event:create"
          ∷ "event:delete" ∷ "event:edit" ∷ "event:patch" ∷ "event:propose" ∷ "event:read"
          ∷ "event:submit" ∷ "event:view" ∷ "event:view_draft" ∷ "feedback:create" ∷ "feedback:view"
          ∷ "health:manage" ∷ "health:view" ∷ "level:read" ∷ "notification:mark_read"
          ∷ "notification:read" ∷ "resource:create" ∷ "resource:delete" ∷ "resource:edit"
          ∷ "resource:read" ∷ "resource:update" ∷ "resource:view" ∷ "resource_type:create"
          ∷ "resource_type:read" ∷ "school:read" ∷ "student:read" ∷ "teacher:read"
          ∷ "user:profile_edit" ∷ "user:profile_read" ∷ "user:read" ∷ "user:view" ∷ [],
    )
    ∷ []
