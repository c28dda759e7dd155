-- ===== src/Schema/Types.antt =====
-- The enumerations of crates/vlorql-core/src/schema/types.rs, and those of the other schema files.
use vlor_ql.Common.{ℕ, Bool, true, false, nat_eq, nat_eq_iff, ◌≡◌, refl, arith}

pub data DataType : Type 0 where
  int float string boolean date timestamp json null uuid decimal array jsonb blob : DataType

pub data BinaryOperator : Type 0 where
  add sub mul div mod_op and_op or_op eq neq gt lt gte lte like ilike : BinaryOperator

pub data ComparisonOperator : Type 0 where
  eq neq gt lt gte lte like ilike in_op between : ComparisonOperator

pub data JoinType : Type 0 where
  inner left right full cross : JoinType

pub data SqlDialect : Type 0 where
  postgres sqlite mysql : SqlDialect

pub data IdentifierQuoting : Type 0 where
  never always double_quote backtick : IdentifierQuoting

pub data SetOperation : Type 0 where
  union_all union intersect except : SetOperation

pub data WindowFrameKind : Type 0 where
  rows range groups : WindowFrameKind

-- `join.join_type != JoinType::Cross`
abbrev pub is_cross : JoinType → Bool
is_cross JoinType.cross = true
is_cross _ = false

abbrev type_index : DataType → ℕ
type_index DataType.int = 0
type_index DataType.float = 1
type_index DataType.string = 2
type_index DataType.boolean = 3
type_index DataType.date = 4
type_index DataType.timestamp = 5
type_index DataType.json = 6
type_index DataType.null = 7
type_index DataType.uuid = 8
type_index DataType.decimal = 9
type_index DataType.array = 10
type_index DataType.jsonb = 11
type_index DataType.blob = 12

-- `==` of the derived `PartialEq`.
unfoldable pub type_eq : DataType → DataType → Bool
type_eq a b = nat_eq (type_index a) (type_index b)

pub type_eq_eq : (a b : DataType) → type_eq a b ≡ true → a ≡ b
unfolding type_eq
type_eq_eq a b h = ground arith

pub type_eq_refl : (a : DataType) → type_eq a a ≡ true
unfolding type_eq
type_eq_refl a = (nat_eq_iff (type_index a) (type_index a)).1 refl
