-- ===== src/Store/Status.antt =====
-- The status enums of prisma/schema.prisma that the modelled services test.
use harpia_api.Prelude.{Bool, true, false}

pub data UnitStatus : Type 0 where
  disponivel reservada vendida quitada distratada bloqueada permutada : UnitStatus

pub data UnitReservationStatus : Type 0 where
  ativa cancelada expirada convertida : UnitReservationStatus

pub data SalesProposalStatus : Type 0 where
  rascunho enviada em_negociacao aceita recusada expirada cancelada : SalesProposalStatus

pub data SaleStatus : Type 0 where
  ativa quitada cancelada distratada : SaleStatus

pub data SaleCommissionStatus : Type 0 where
  prevista devida paga cancelada : SaleCommissionStatus

pub data ReceivableStatus : Type 0 where
  pendente parcial pago cancelado : ReceivableStatus

pub data BankReconciliationStatus : Type 0 where
  pendente conciliado ignorado : BankReconciliationStatus

pub data PaymentConditionType : Type 0 where
  entrada parcelas saldo_chaves financiamento outro : PaymentConditionType

pub data PayableStatus : Type 0 where
  pendente parcial pago cancelado : PayableStatus

pub data ReturnStatus : Type 0 where
  pendente pago atrasado : ReturnStatus

pub data CollectionDispatchStatus : Type 0 where
  pendente enviando enviado falhou cancelado : CollectionDispatchStatus

pub data PersonRoleType : Type 0 where
  lead cliente corretor funcionario fornecedor parceiro investidor : PersonRoleType

abbrev pub is_disponivel : UnitStatus → Bool
is_disponivel UnitStatus.disponivel = true
is_disponivel _ = false

abbrev pub is_reservada : UnitStatus → Bool
is_reservada UnitStatus.reservada = true
is_reservada _ = false

abbrev pub is_ativa : UnitReservationStatus → Bool
is_ativa UnitReservationStatus.ativa = true
is_ativa _ = false

abbrev pub is_convertida : UnitReservationStatus → Bool
is_convertida UnitReservationStatus.convertida = true
is_convertida _ = false

abbrev pub is_aceita : SalesProposalStatus → Bool
is_aceita SalesProposalStatus.aceita = true
is_aceita _ = false

abbrev pub is_entrada : PaymentConditionType → Bool
is_entrada PaymentConditionType.entrada = true
is_entrada _ = false

abbrev pub is_parcelas : PaymentConditionType → Bool
is_parcelas PaymentConditionType.parcelas = true
is_parcelas _ = false

abbrev pub is_pago : ReceivableStatus → Bool
is_pago ReceivableStatus.pago = true
is_pago _ = false

abbrev pub is_cancelado : ReceivableStatus → Bool
is_cancelado ReceivableStatus.cancelado = true
is_cancelado _ = false

-- A sale in one of `[SaleStatus.ATIVA, SaleStatus.QUITADA]`.
abbrev pub is_current : SaleStatus → Bool
is_current SaleStatus.ativa = true
is_current SaleStatus.quitada = true
is_current _ = false

abbrev pub is_paga : SaleCommissionStatus → Bool
is_paga SaleCommissionStatus.paga = true
is_paga _ = false

abbrev pub is_payable_pago : PayableStatus → Bool
is_payable_pago PayableStatus.pago = true
is_payable_pago _ = false

abbrev pub is_cliente : PersonRoleType → Bool
is_cliente PersonRoleType.cliente = true
is_cliente _ = false
